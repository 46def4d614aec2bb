-- ===== src/MemoryStore/Access.antt =====
-- The loops of `getOrSetValue` against little-endian reading and writing, and what a load or a store
-- does inside and outside of the array.
use cos375_project.Base.{
  ℕ, zero, suc, ◌+◌, ◌-◌, ◌*◌, ◌/◌, ◌%◌, ◌^◌, ◌≤◌, ◌<◌, ◌≡◌, refl, ap, arith, List, length, set,
  length-set, get_elem?, get_elem?-eq-get_or, get_elem?-eq-none, All-get_or, true, sub64, add64,
  ◌∙◌, bit_and, bit_or, shl64, none, some, sym,
}
use native.Mathlib.Decide.{dec_lt}
use native.Mathlib.Nat.{add-zero, div-one, add_assoc, div-div-eq-div-mul, mod-eq_of_lt}
use cos375_project.Bits.{bit_or_low, bit_and_mask}
use cos375_project.Utilities.Fields.{pow-add, two_pow_le}
use cos375_project.MemoryStore.{
  MemoryStore, zero_ret, einval, get_bytes, set_bytes, valid_size, get_mem_value, set_mem_value,
}
use cos375_project.MemoryStore.Bytes.{byte_at, IsBytes, read_le, write_le}

pow_byte : (i : ℕ) → 2 ^ ((i + 1) * 8) ≡ 2 ^ (i * 8) * 256
pow_byte i = ap (λ k. 2 ^ k) (omega arith) ∙ pow-add (i * 8) 8

-- One byte joined to the value read so far.
join_byte :
    (b i value : ℕ)
    → b < 256
    → i < 8
    → value < 2 ^ (i * 8)
    → bit_or value (shl64 b (i * 8)) ≡ value + b * 2 ^ (i * 8)
join_byte b i value hb hi hv =
    let below : b * 2 ^ (i * 8) < 2 ^ 64 =
      grind (arith, pow_byte i, two_pow_le ((i + 1) * 8) 64 (omega arith)) in
    rw (mod-eq_of_lt below, bit_or_low (i * 8) b value hv)

module _ (arr : List ℕ) (rel : ℕ) where
  at_in :
      (i : ℕ)
      → rel + i < length arr
      → length arr < 2 ^ 64
      → get_elem? arr (add64 rel i) ≡ some (byte_at arr (rel + i))
  at_in i h fits =
      rw (mod-eq_of_lt {n = rel + i} {m = 2 ^ 64} (omega arith))
        (get_elem?-eq-get_or arr (rel + i) 0 h)

  at_out : (i : ℕ) → length arr ≤ rel + i → rel + i < 2 ^ 64 → get_elem? arr (add64 rel i) ≡ none
  at_out i h fits = rw (mod-eq_of_lt fits) (get_elem?-eq-none arr (rel + i) h)

  get_bytes_lem :
      (left i value : ℕ)
      → IsBytes arr
      → length arr < 2 ^ 64
      → rel + i + left ≤ length arr
      → i + left ≤ 8
      → value < 2 ^ (i * 8)
      → get_bytes arr rel i left value
        ≡ (zero_ret, value + read_le arr (rel + i) left * 2 ^ (i * 8))
  unfolding get_bytes
  get_bytes_lem zero i value bytes fits h k hv = ap (λ (v : ℕ). (zero_ret, v)) (omega arith)
  get_bytes_lem (suc left) i value bytes fits h k hv =
      let b : ℕ = byte_at arr (rel + i) in
      let hb : b < 256 = All-get_or (λ x. x < 256) arr (rel + i) 0 bytes (omega arith) in
      let next : ℕ = read_le arr (rel + (i + 1)) left in
      let below : value + b * 2 ^ (i * 8) < 2 ^ ((i + 1) * 8) = grind (arith, pow_byte i) in
      rw
        (
          at_in i (omega arith) fits,
          get_bytes,
          join_byte b i value hb (omega arith) hv,
          get_bytes_lem left (i + 1) (value + b * 2 ^ (i * 8)) bytes fits (omega arith)
              (omega arith) below,
          add_assoc rel i 1,
        )
        (ap (λ (v : ℕ). (zero_ret, v)) (omega (arith, ap (λ (t : ℕ). next * t) (pow_byte i))))

  -- The first byte outside stops the loop.
  get_bytes_fault :
      (left i value : ℕ)
      → length arr < 2 ^ 64
      → rel + i < 2 ^ 64
      → length arr < rel + i + suc left
      → (get_bytes arr rel i (suc left) value).0 ≡ einval
  unfolding get_bytes
  get_bytes_fault zero i value fits hi h = rw (at_out i (omega arith) hi, get_bytes)
  get_bytes_fault (suc left) i value fits hi h = elim (dec_lt (rel + i) (length arr)) [
    | yes p ↦
        rw (at_in i p fits, get_bytes)
          (get_bytes_fault left (i + 1) (bit_or value (shl64 (byte_at arr (rel + i)) (i * 8))) fits
            (omega arith) (omega arith))
    | no p ↦ rw (at_out i (omega arith) hi, get_bytes)
  ]

low_byte : (v i : ℕ) → bit_and (v / 2 ^ (i * 8)) 0xff ≡ v / 2 ^ (i * 8) % 256
low_byte v i = bit_and_mask 8 (v / 2 ^ (i * 8))

next_byte : (v i : ℕ) → v / 2 ^ ((i + 1) * 8) ≡ v / 2 ^ (i * 8) / 256
next_byte v i = rw (pow_byte i) (sym (div-div-eq-div-mul v (2 ^ (i * 8)) 256))

module _ (rel : ℕ) where
  set_bytes_in :
      (left i v : ℕ) (arr : List ℕ)
      → length arr < 2 ^ 64
      → rel + i < length arr
      → set_bytes arr rel i (suc left) v
        ≡ set_bytes (set arr (rel + i) (v / 2 ^ (i * 8) % 256)) rel (i + 1) left v
  unfolding set_bytes
  set_bytes_in left i v arr fits h =
      let same : (rel + i) % 2 ^ 64 ≡ rel + i = mod-eq_of_lt (omega arith) in
      rw (at_in arr rel i h fits, set_bytes, same, low_byte v i)

  set_bytes_lem :
      (left i v : ℕ) (arr : List ℕ)
      → length arr < 2 ^ 64
      → rel + i + left ≤ length arr
      → set_bytes arr rel i left v ≡ (zero_ret, write_le arr (rel + i) left (v / 2 ^ (i * 8)))
  set_bytes_lem zero i v arr fits h = unfold set_bytes in refl
  set_bytes_lem (suc left) i v arr fits h =
      let out : List ℕ = set arr (rel + i) (v / 2 ^ (i * 8) % 256) in
      rw
        (
          set_bytes_in left i v arr fits (omega arith),
          set_bytes_lem left (i + 1) v out (rw length-set fits) (rw length-set (omega arith)),
          add_assoc rel i 1,
          next_byte v i,
        )
        refl

  set_bytes_out :
      (left i v : ℕ) (arr : List ℕ)
      → length arr ≤ rel + i
      → rel + i < 2 ^ 64
      → set_bytes arr rel i (suc left) v
        ≡ (einval, write_le arr (rel + i) (length arr - (rel + i)) (v / 2 ^ (i * 8)))
  unfolding set_bytes
  set_bytes_out left i v arr h hi =
      let none_left : length arr - (rel + i) ≡ 0 = omega arith in
      rw (at_out arr rel i h hi, set_bytes, none_left) refl

  -- Only the bytes inside of the array are written.
  set_bytes_fault :
      (left i v : ℕ) (arr : List ℕ)
      → length arr < 2 ^ 64
      → rel + i < 2 ^ 64
      → length arr < rel + i + suc left
      → set_bytes arr rel i (suc left) v
        ≡ (einval, write_le arr (rel + i) (length arr - (rel + i)) (v / 2 ^ (i * 8)))
  set_bytes_fault zero i v arr fits hi h = set_bytes_out zero i v arr (omega arith) hi
  set_bytes_fault (suc left) i v arr fits hi h = elim (dec_lt (rel + i) (length arr)) [
    | yes p ↦
        let out : List ℕ = set arr (rel + i) (v / 2 ^ (i * 8) % 256) in
        let more : length arr - (rel + i) ≡ suc (length arr - (rel + (i + 1))) = omega arith in
        rw
          (
            set_bytes_in (suc left) i v arr fits p,
            set_bytes_fault left (i + 1) v out (rw length-set fits) (omega arith)
                (rw length-set (omega arith)),
            length-set,
            more,
            ← add_assoc rel i 1,
            next_byte v i,
          )
          refl
    | no p ↦ set_bytes_out (suc left) i v arr (omega arith) hi
  ]

-- A machine's memory: the addresses are 64 bits wide and the cells are bytes.
pub record IsMemory (m : MemoryStore) : Type 0 where
  pub fits : length m.mem_arr < 2 ^ 64
  pub bytes : IsBytes m.mem_arr

-- `relativeAddr`
abbrev pub offset : MemoryStore → ℕ → ℕ
offset m address = sub64 address m.start_addr

abbrev pub IsInside : MemoryStore → ℕ → ℕ → Type 0
IsInside m address size = offset m address + size ≤ length m.mem_arr

pub size_bounds : (size : ℕ) → valid_size size ≡ true → (1 ≤ size) × (size ≤ 8)
unfolding valid_size
size_bounds size h = ground arith

-- The loops from their first byte.
module _ (arr : List ℕ) (rel size : ℕ) (fits : length arr < 2 ^ 64) where
  get_all :
      IsBytes arr
      → rel + size ≤ length arr
      → size ≤ 8
      → get_bytes arr rel 0 size 0 ≡ (zero_ret, read_le arr rel size)
  get_all bytes h k =
      rw (add-zero rel) at
        (get_bytes_lem arr rel size 0 0 bytes fits (rw add-zero h) (omega arith) (omega arith))
      ∙ ap (λ (v : ℕ). (zero_ret, v)) (omega arith)

  get_beyond :
      rel < 2 ^ 64 → 1 ≤ size → length arr < rel + size → (get_bytes arr rel 0 size 0).0 ≡ einval
  get_beyond hr pos h =
      let e : size ≡ suc (size - 1) = omega arith in
      rw e (get_bytes_fault arr rel (size - 1) 0 0 fits (omega arith) (omega arith))

  set_all :
      (v : ℕ)
      → rel + size ≤ length arr
      → set_bytes arr rel 0 size v ≡ (zero_ret, write_le arr rel size v)
  set_all v h =
      rw (add-zero rel, div-one v) at (set_bytes_lem rel size 0 v arr fits (rw add-zero h))

  set_beyond :
      (v : ℕ)
      → rel < 2 ^ 64
      → 1 ≤ size
      → length arr < rel + size
      → set_bytes arr rel 0 size v ≡ (einval, write_le arr rel (length arr - rel) v)
  set_beyond v hr pos h =
      let e : size ≡ suc (size - 1) = omega arith in
      rw (add-zero rel, div-one v, ← e) at
        (set_bytes_fault rel (size - 1) 0 v arr fits (omega arith) (omega arith))

module _ (m : MemoryStore) (address value size : ℕ) (mem : IsMemory m)
    (sized : valid_size size ≡ true) where
  -- Inside, a load is the little-endian number of its bytes.
  pub get_mem_value_inside :
      IsInside m address size
      → get_mem_value m address value size ≡ (zero_ret, read_le m.mem_arr (offset m address) size)
  unfolding get_mem_value
  get_mem_value_inside h =
      rw (get_mem_value, sized)
        (get_all m.mem_arr (offset m address) size mem.fits mem.bytes h (size_bounds size sized).1)

  -- Outside, a load fails.
  pub get_mem_value_outside :
      ¬ IsInside m address size → (get_mem_value m address value size).0 ≡ einval
  unfolding get_mem_value
  get_mem_value_outside h =
      rw (get_mem_value, sized)
        (get_beyond m.mem_arr (offset m address) size mem.fits (omega arith)
          (size_bounds size sized).0 (omega arith))

  -- Inside, a store writes the low bytes of its value.
  pub set_mem_value_inside :
      IsInside m address size
      → set_mem_value m address value size
        ≡ (zero_ret, record m { mem_arr = write_le m.mem_arr (offset m address) size value })
  unfolding set_mem_value
  set_mem_value_inside h = rw (sized, set_all m.mem_arr (offset m address) size mem.fits value h)

  -- In a memory of bytes with fewer than 2^64 cells, a store of a valid size that does not lie
  -- inside fails, and has written those of its bytes that do.
  pub set_mem_value_outside :
      ¬ IsInside m address size
      → set_mem_value m address value size ≡ (
        einval,
        record m {
          mem_arr =
              write_le m.mem_arr (offset m address) (length m.mem_arr - offset m address) value;
        },
      )
  unfolding set_mem_value
  set_mem_value_outside h = rw (
    sized,
    set_beyond m.mem_arr (offset m address) size mem.fits value (omega arith)
        (size_bounds size sized).0 (omega arith),
  )
