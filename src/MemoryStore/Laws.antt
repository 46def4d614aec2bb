-- ===== src/MemoryStore/Laws.antt =====
-- What a client of the memory sees: a load after a store, the error path, and that a store keeps the
-- cells bytes.
use cos375_project.Base.{ℕ, ◌+◌, ◌-◌, ◌%◌, ◌^◌, ◌≤◌, ◌≡◌, refl, ap, arith, length, ◌⊎◌, ◌↔◌, true}
use native.Mathlib.Decide.{dec_le}
use cos375_project.MemoryStore.{MemoryStore, zero_ret, valid_size, get_mem_value, set_mem_value}
use cos375_project.MemoryStore.Bytes.{
  write_le, length-write_le, write_le_outside, read_le-write_le, read_le_ext, IsBytes-write_le,
}
use cos375_project.MemoryStore.Access.{
  IsMemory, IsInside, offset, get_mem_value_inside, get_mem_value_outside, set_mem_value_inside,
  set_mem_value_outside,
}

module _ (m : MemoryStore) (address value size : ℕ) where
  -- The memory after a store that succeeds.
  abbrev stored : MemoryStore
  stored = record m { mem_arr = write_le m.mem_arr (offset m address) size value }

  stored-IsMemory : IsMemory m → IsMemory stored
  stored-IsMemory mem = record {
    fits = rw length-write_le mem.fits;
    bytes = IsBytes-write_le size (offset m address) value m.mem_arr mem.bytes;
  }

module _ (m : MemoryStore) (address value size : ℕ) (mem : IsMemory m)
    (sized : valid_size size ≡ true) where
  -- A store of a valid size keeps a memory of bytes with fewer than 2^64 cells so, also where it
  -- fails.
  pub set_mem_value-IsMemory : IsMemory (set_mem_value m address value size).1
  set_mem_value-IsMemory = elim (dec_le (offset m address + size) (length m.mem_arr)) [
    | yes p ↦ rw (set_mem_value_inside m address value size mem sized p) (record {
      fits = rw length-write_le mem.fits;
      bytes = IsBytes-write_le size (offset m address) value m.mem_arr mem.bytes;
    })
    | no p ↦ rw (set_mem_value_outside m address value size mem sized p) (record {
      fits = rw length-write_le mem.fits;
      bytes =
          IsBytes-write_le (length m.mem_arr - offset m address) (offset m address) value m.mem_arr
            mem.bytes;
    })
  ]

  -- In a memory of bytes with fewer than 2^64 cells, loads and stores of a valid size succeed
  -- exactly where the whole access lies inside of the array.
  pub access-IsInside_iff :
      (old : ℕ)
      → (((get_mem_value m address old size).0 ≡ zero_ret) ↔ IsInside m address size)
        × (((set_mem_value m address value size).0 ≡ zero_ret) ↔ IsInside m address size)
  access-IsInside_iff old = elim (dec_le (offset m address + size) (length m.mem_arr)) [
    | yes p ↦
        rw
          (
            get_mem_value_inside m address old size mem sized p,
            set_mem_value_inside m address value size mem sized p,
          )
          (((λ _. p), (λ _. refl)), ((λ _. p), (λ _. refl)))
    | no p ↦
        rw
          (
            get_mem_value_outside m address old size mem sized p,
            set_mem_value_outside m address value size mem sized p,
          )
          (((λ e. cc), (λ q. absurd (p q))), ((λ e. cc), (λ q. absurd (p q))))
  ]

  -- In a memory of bytes with fewer than 2^64 cells, a load after a store of the same valid size at
  -- the same address, which lies inside, gives the low bytes of the stored value.
  pub get-set_mem_value :
      (old : ℕ)
      → IsInside m address size
      → get_mem_value (set_mem_value m address value size).1 address old size
        ≡ (zero_ret, value % 256 ^ size)
  get-set_mem_value old h = rw (
    set_mem_value_inside m address value size mem sized h,
    get_mem_value_inside (stored m address value size) address old size
        (stored-IsMemory m address value size mem) sized (rw length-write_le h),
    read_le-write_le size (offset m address) value m.mem_arr h,
  )

  -- In a memory of bytes with fewer than 2^64 cells, a load inside is not changed by a store inside
  -- that does not overlap it, both of valid sizes.
  pub get-set_mem_value_apart :
      (other old size' : ℕ)
      → valid_size size' ≡ true
      → IsInside m address size
      → IsInside m other size'
      → (offset m other + size' ≤ offset m address) ⊎ (offset m address + size ≤ offset m other)
      → get_mem_value (set_mem_value m address value size).1 other old size'
        ≡ get_mem_value m other old size'
  get-set_mem_value_apart other old size' sized' h k apart =
      let m' = stored m address value size in
      rw
        (
          set_mem_value_inside m address value size mem sized h,
          get_mem_value_inside m' other old size' (stored-IsMemory m address value size mem) sized'
              (rw length-write_le k),
          get_mem_value_inside m other old size' mem sized' k,
        )
        (ap (λ (v : ℕ). (zero_ret, v))
          (read_le_ext size' (offset m other) m.mem_arr m'.mem_arr
            λ j p q. write_le_outside size (offset m address) value j m.mem_arr (omega arith)))
