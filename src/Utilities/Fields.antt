-- ===== src/Utilities/Fields.antt =====
-- What `extractBits`, `sext32` and `sext64` compute.
use cos375_project.Base.{
  ℕ, zero, suc, ◌+◌, ◌-◌, ◌*◌, ◌/◌, ◌%◌, ◌^◌, ◌≤◌, ◌<◌, ◌≡◌, ap, arith, ltb, if◌then◌else◌,
  Bool-cases, inl, inr, ltb→lt, bit_or, ℤ, int64,
}
use native.Mathlib.Numerals.{sub-one, add-one}
use native.Mathlib.Nat.{
  pow-suc, add-suc, add-zero, mod-eq_of_lt, add-mul-mod_self_right, div-eq_of_lt, div-eq_of_lt-le,
}
use cos375_project.Bits.{bit_and_mask, bit_and_bit, bit_or_low, two_pow_pos}
use cos375_project.Utilities.{extract_bits, sext64, sext32}

pub extract_bits_lem :
    (w start end : ℕ) → extract_bits w start end ≡ w / 2 ^ end % 2 ^ (start + 1 - end)
unfolding extract_bits
extract_bits_lem w start end = bit_and_mask (start + 1 - end) (w / 2 ^ end)

pub pow-add : (a b : ℕ) → 2 ^ (a + b) ≡ 2 ^ a * 2 ^ b
pow-add a zero = rw add-zero (omega arith)
pow-add a (suc b) = rw (add-suc, pow-suc, pow-suc, pow-add a b) (omega arith)

wrapped : (q m : ℕ) → (suc q * suc m - 1) * suc m % (suc q * suc m) ≡ q * suc m
wrapped q m =
    let p : suc q * suc m ≡ suc (m + q * suc m) = grind arith in
    let e : (m + q * suc m) * suc m ≡ q * suc m + m * suc (m + q * suc m) = grind arith in
    rw (p, sub-one) (rw (e, add-mul-mod_self_right) (mod-eq_of_lt (omega arith)))

wrapped_pos : (q m : ℕ) → 0 < q → 0 < m → (q * m - 1) * m % (q * m) ≡ (q - 1) * m
wrapped_pos (suc q) (suc m) _ _ = ground (arith, wrapped q m)
wrapped_pos zero m h _ = elim h [ ]
wrapped_pos (suc q) zero _ h = elim h [ ]

pred-mul : (q m : ℕ) → (q - 1) * m ≡ q * m - m
pred-mul zero m = omega arith
pred-mul (suc q) m = rw sub-one (omega arith)

-- The ones above bit `s` of a word of `n` bits, joined to a pattern of the bits below.
or_ones :
    (n s imm : ℕ)
    → s < n
    → imm < 2 ^ suc s
    → bit_or imm ((2 ^ n - 1) * 2 ^ (s + 1) % 2 ^ n) ≡ imm + (2 ^ n - 2 ^ suc s)
or_ones n s imm h k =
    let e : 2 ^ (n - suc s) * 2 ^ suc s ≡ 2 ^ n =
      rw (← pow-add (n - suc s) (suc s)) (ap (λ k. 2 ^ k) (omega arith)) in
    let ones : (2 ^ n - 1) * 2 ^ suc s % 2 ^ n ≡ (2 ^ (n - suc s) - 1) * 2 ^ suc s =
      rw e at (wrapped_pos (2 ^ (n - suc s)) (2 ^ suc s) (two_pow_pos _) (two_pow_pos _)) in
    rw (add-one, ones, bit_or_low (suc s) (2 ^ (n - suc s) - 1) imm k, pred-mul, e)

pub two_pow_le : (a b : ℕ) → a ≤ b → 2 ^ a ≤ 2 ^ b
two_pow_le a b h =
    let e : 2 ^ b ≡ 2 ^ (b - a) * 2 ^ a =
      rw (← pow-add (b - a) a) (ap (λ k. 2 ^ k) (omega arith)) in
    rw e (grind (arith, two_pow_pos (b - a)))

sign_bit-zero : (s imm : ℕ) → imm < 2 ^ s → imm / 2 ^ s % 2 * 2 ^ s ≡ 0
sign_bit-zero s imm h = rw (div-eq_of_lt h) (omega arith)

sign_bit-one : (s imm : ℕ) → 2 ^ s ≤ imm → imm < 2 ^ suc s → imm / 2 ^ s % 2 * 2 ^ s ≡ 2 ^ s
sign_bit-one s imm h k =
    let e : imm / 2 ^ s ≡ 1 = div-eq_of_lt-le (2 ^ s) (omega arith) (omega (arith, pow-suc 2 s)) in
    rw e (omega arith)

-- The number that a pattern of `s + 1` bits stands for in two's complement.
abbrev pub signed : ℕ → ℕ → ℤ
signed s imm = if ltb imm (2 ^ s) then ℤ.pos imm else ℤ.negsuc (2 ^ suc s - imm - 1)

-- Both extensions of a pattern of `s + 1` bits, from its sign bit, which is not the top bit of the
-- word: there the source shifts by the whole width, which C++ leaves undefined.
module _ (s imm : ℕ) (k : imm < 2 ^ suc s) where
  pub sext64_lem :
      s < 63 → sext64 imm s ≡ (if ltb imm (2 ^ s) then imm else imm + (2 ^ 64 - 2 ^ suc s))
  unfolding sext64
  sext64_lem h = elim (Bool-cases (ltb imm (2 ^ s))) [
    | inl low ↦ ground (arith, bit_and_bit s imm, sign_bit-zero s imm (ltb→lt _ _ low))
    | inr high ↦
        let big : 2 ^ s ≤ imm = ground arith in
        rw (bit_and_bit s imm, sign_bit-one s imm big k, or_ones 64 s imm (omega arith) k)
          (ground (arith, two_pow_pos s))
  ]

  pub sext32_lem :
      s < 31 → sext32 imm s ≡ (if ltb imm (2 ^ s) then imm else imm + (2 ^ 32 - 2 ^ suc s))
  unfolding sext32
  sext32_lem h = elim (Bool-cases (ltb imm (2 ^ s))) [
    | inl low ↦ ground (arith, bit_and_bit s imm, sign_bit-zero s imm (ltb→lt _ _ low))
    | inr high ↦
        let big : 2 ^ s ≤ imm = ground arith in
        rw (bit_and_bit s imm, sign_bit-one s imm big k, or_ones 32 s imm (omega arith) k)
          (ground (arith, two_pow_pos s))
  ]

  -- For a sign bit s below 63 and a pattern below 2^(s+1), sext64 gives the word whose signed value
  -- is that of the pattern in two's complement.
  pub int64-sext64 : s < 63 → int64 (sext64 imm s) ≡ signed s imm
  int64-sext64 h = rw (sext64_lem h) (ground (arith, two_pow_pos s, pow-suc 2 s, two_pow_le s 63))

  pub sext64-lt : s < 63 → sext64 imm s < 2 ^ 64
  sext64-lt h = rw (sext64_lem h) (ground (arith, two_pow_le (suc s) 64))
