-- ===== src/MemoryStore/Bytes.antt =====
-- Little-endian reading and writing of the byte array without the loops' fuel and faults, and the
-- bit operations of the loops.
use native.Mathlib.Nat.{
  pow-suc, one-le-pow, mul_comm, div-add-mod, mod-lt, mod-eq_of_lt, add-mul-mod_self_right,
}
use cos375_project.Base.{
  ◌∙◌, ℕ, zero, suc, ◌+◌, ◌*◌, ◌/◌, ◌%◌, ◌^◌, ◌≤◌, ◌<◌, ◌≡◌, refl, ap, arith, List, [], ◌∷◌, length,
  All-set, get_or, set, All, length-set, get_or-set_self, get_or-set_ne, ◌⊎◌,
}

abbrev pub byte_at : List ℕ → ℕ → ℕ
byte_at arr i = get_or arr i 0

abbrev pub IsBytes : List ℕ → Type 0
IsBytes arr = All (λ b. b < 256) arr

-- The number in the `n` bytes from index `a`, the lowest first.
abbrev pub read_le : List ℕ → ℕ → ℕ → ℕ
read_le arr a zero = 0
read_le arr a (suc n) = byte_at arr a + 256 * read_le arr (a + 1) n

-- The array with the low `n` bytes of `v` from index `a`.
abbrev pub write_le : List ℕ → ℕ → ℕ → ℕ → List ℕ
write_le arr a zero v = arr
write_le arr a (suc n) v = write_le (set arr a (v % 256)) (a + 1) n (v / 256)

pub byte_at-lt : (arr : List ℕ) (a : ℕ) → IsBytes arr → byte_at arr a < 256
byte_at-lt [] a h = omega arith
byte_at-lt (x ∷ arr) zero h = h.0
byte_at-lt (x ∷ arr) (suc a) h = byte_at-lt arr a h.1

pub length-write_le : (n a v : ℕ) (arr : List ℕ) → length (write_le arr a n v) ≡ length arr
length-write_le zero a v arr = refl
length-write_le (suc n) a v arr =
    rw (length-write_le n (a + 1) (v / 256) (set arr a (v % 256))) (length-set arr a (v % 256))

-- The bytes outside the range stay.
pub write_le_outside :
    (n a v j : ℕ) (arr : List ℕ)
    → (j < a) ⊎ (a + n ≤ j)
    → byte_at (write_le arr a n v) j ≡ byte_at arr j
write_le_outside zero a v j arr h = refl
write_le_outside (suc n) a v j arr h =
    rw (write_le_outside n (a + 1) (v / 256) j (set arr a (v % 256)) (omega arith))
      (get_or-set_ne arr a j (v % 256) 0 (omega arith))

pub mod_split : (v p : ℕ) → 0 < p → v % (256 * p) ≡ v % 256 + 256 * (v / 256 % p)
mod_split v p h =
    let r : ℕ = v / 256 % p in
    let e : v ≡ v % 256 + 256 * r + v / 256 / p * (256 * p) =
      omega (arith, div-add-mod (v / 256) p) in
    ap (λ t. t % (256 * p)) e
    ∙ add-mul-mod_self_right (v % 256 + 256 * r) _ (256 * p)
    ∙ mod-eq_of_lt (omega (arith, mod-lt (v / 256) h))

pub read_le-write_le :
    (n a v : ℕ) (arr : List ℕ) → a + n ≤ length arr → read_le (write_le arr a n v) a n ≡ v % 256 ^ n
read_le-write_le zero a v arr h = omega arith
read_le-write_le (suc n) a v arr h =
    rw
      (
        write_le_outside n (a + 1) (v / 256) a (set arr a (v % 256)) (omega arith),
        get_or-set_self arr a (v % 256) 0 (omega arith),
        read_le-write_le n (a + 1) (v / 256) (set arr a (v % 256)) (rw length-set (omega arith)),
        pow-suc,
        mul_comm (256 ^ n) 256,
        mod_split v (256 ^ n) (one-le-pow n 256 (omega arith)),
      )
      refl

pub read_le_ext :
    (n a : ℕ) (arr out : List ℕ)
    → ((j : ℕ) → a ≤ j → j < a + n → byte_at out j ≡ byte_at arr j)
    → read_le out a n ≡ read_le arr a n
read_le_ext zero a arr out h = refl
read_le_ext (suc n) a arr out h = rw (
  h a (omega arith) (omega arith),
  read_le_ext n (a + 1) arr out (λ j p q. h j (omega arith) (omega arith)),
)

pub IsBytes-write_le : (n a v : ℕ) (arr : List ℕ) → IsBytes arr → IsBytes (write_le arr a n v)
IsBytes-write_le zero a v arr h = h
IsBytes-write_le (suc n) a v arr h =
    IsBytes-write_le n (a + 1) (v / 256) (set arr a (v % 256))
      (All-set (λ b. b < 256) arr a (v % 256) h (omega arith))

pub read_le-lt : (n a : ℕ) (arr : List ℕ) → IsBytes arr → read_le arr a n < 256 ^ n
read_le-lt zero a arr h = omega arith
read_le-lt (suc n) a arr h =
    rw pow-suc (omega (arith, byte_at-lt arr a h, read_le-lt n (a + 1) arr h))
