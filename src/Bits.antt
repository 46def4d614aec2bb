-- ===== src/Bits.antt =====
-- The bit operations of Utilities.cpp, simulator.cpp and MemoryStore.cpp as arithmetic: `&` with a
-- mask of low bits, and `|` of fields that do not overlap, at every width.
mod Step
use cos375_project.Base.{
  ℕ, zero, suc, ◌+◌, ◌-◌, ◌*◌, ◌/◌, ◌%◌, ◌^◌, ◌≤◌, ◌<◌, ◌≡◌, refl, ap, bit_and, bit_or, bit_xor,
  arith,
}
use Prim.Native.Nat.{bit_or-bitwise}
use native.Mathlib.Nat.{pow-suc, one-le-pow, div-div-eq-div-mul, mul_comm}
use Step.{or_digit, and_digit, or_nothing, and_nothing}

pub two_pow_pos : (n : ℕ) → 0 < 2 ^ n
two_pow_pos n = one-le-pow n 2 (omega arith)

pub bit_or-zero : (a : ℕ) → bit_or a 0 ≡ a
bit_or-zero a = or_nothing a a (omega arith)

pub zero-bit_or : (a : ℕ) → bit_or 0 a ≡ a
zero-bit_or a = bit_or-bitwise 0 a

pub bit_and-zero : (a : ℕ) → bit_and a 0 ≡ 0
bit_and-zero a = and_nothing a a (omega arith)

pub double-two-pow : (q k : ℕ) → q * 2 ^ suc k ≡ 2 * (q * 2 ^ k)
double-two-pow q k = omega (arith, ap (λ (t : ℕ). q * t) (pow-suc 2 k))

-- `(q << k) | r` is a sum where `r` fits `k` bits, in either order.
pub bit_or_high : (k q r : ℕ) → r < 2 ^ k → bit_or (q * 2 ^ k) r ≡ q * 2 ^ k + r
bit_or_high zero q r fits = ground (arith, bit_or-zero q)
bit_or_high (suc k) q r fits =
    ground
      (arith, or_digit (q * 2 ^ suc k) r, double-two-pow q k, bit_or_high k q (r / 2) (omega arith))

pub bit_or_low : (k q r : ℕ) → r < 2 ^ k → bit_or r (q * 2 ^ k) ≡ r + q * 2 ^ k
bit_or_low zero q r fits = ground (arith, zero-bit_or q)
bit_or_low (suc k) q r fits =
    ground
      (arith, or_digit r (q * 2 ^ suc k), double-two-pow q k, bit_or_low k q (r / 2) (omega arith))

-- All ones keep what fits them, and drop what stands above them.
ones_keep : (k above low : ℕ) → low < 2 ^ k → bit_and (above * 2 ^ k + low) (2 ^ k - 1) ≡ low
ones_keep (suc k) above low below = ground (
  arith,
  ones_keep k above (low / 2) (omega arith),
  pow-suc 2 k,
  and_digit (above * 2 ^ suc k + low) (2 ^ suc k - 1),
  double-two-pow above k,
)
ones_keep zero above low below = rw bit_and-zero (omega arith)

-- `a & ((1 << k) - 1)` is the remainder by `2 ^ k`.
pub bit_and_mask : (k a : ℕ) → bit_and a (2 ^ k - 1) ≡ a % 2 ^ k
bit_and_mask k a = ground (arith, ones_keep k (a / 2 ^ k) (a % 2 ^ k), two_pow_pos k)

halve-div : (a k : ℕ) → a / 2 / 2 ^ k ≡ a / 2 ^ suc k
halve-div a k = rw (div-div-eq-div-mul, pow-suc, mul_comm)

-- `a & (1 << k)` is bit `k` of `a`, in its place.
pub bit_and_bit : (k a : ℕ) → bit_and a (2 ^ k) ≡ a / 2 ^ k % 2 * 2 ^ k
bit_and_bit zero a = omega (arith, and_digit a 1, bit_and-zero (a / 2))
bit_and_bit (suc k) a = ground (
  arith,
  and_digit a (2 ^ suc k),
  pow-suc 2 k,
  bit_and_bit k (a / 2),
  halve-div a k,
  double-two-pow (a / 2 ^ suc k % 2) k,
)

-- The two fields of a number are joined each by itself.
pub bit_or_fields :
    (k q r q' r' : ℕ)
    → r < 2 ^ k
    → r' < 2 ^ k
    → bit_or (q * 2 ^ k + r) (q' * 2 ^ k + r') ≡ bit_or q q' * 2 ^ k + bit_or r r'
bit_or_fields zero q r q' r' h h' =
    let (e, e') : (r ≡ 0) × (r' ≡ 0) = (omega arith, omega arith) in rw (e, e') (ground arith)
bit_or_fields (suc k) q r q' r' h h' = ground (
  arith,
  or_digit (q * 2 ^ suc k + r) (q' * 2 ^ suc k + r'),
  or_digit r r',
  double-two-pow q k,
  double-two-pow q' k,
  double-two-pow (bit_or q q') k,
  bit_or_fields k q (r / 2) q' (r' / 2) (omega arith) (omega arith),
)

-- One bit more, at a place where the other number has 0.
pub bit_or_bit :
    (k q r b : ℕ)
    → r < 2 ^ k
    → b < 2
    → bit_or (q * 2 * 2 ^ k + r) (b * 2 ^ k) ≡ q * 2 * 2 ^ k + b * 2 ^ k + r
bit_or_bit k q r b fits bit =
    let joined : (q * 2 + b) * 2 ^ k ≡ q * 2 * 2 ^ k + b * 2 ^ k = grind arith in
    ground (
      arith,
      bit_or_fields k (q * 2) r b 0 fits (two_pow_pos k),
      ap (λ (t : ℕ). t * 2 ^ k) (bit_or_high 1 q b (omega arith)),
      bit_or-zero r,
      joined,
    )
