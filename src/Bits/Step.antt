-- ===== src/Bits/Step.antt =====
-- The lowest binary digit of `&` and `|`. The native operations run on as much fuel as their first
-- operand; more fuel than a number needs changes nothing.
use native.Mathlib.Nat.{suc-add}
use Prim.Native.Nat.{min, max, digits, bitwise, bit_and-bitwise, bit_or-bitwise}
use cos375_project.Base.{
  ℕ, zero, suc, ◌+◌, ◌-◌, ◌*◌, ◌/◌, ◌%◌, ◌≤◌, ◌≡◌, refl, ◌∙◌, ap, bit_and, bit_or, arith,
}

module _ (alone : ℕ → ℕ) (digit : ℕ → ℕ → ℕ) where
  -- The value on `k` units of fuel.
  abbrev on_fuel : ℕ → ℕ → ℕ → ℕ
  on_fuel k x y = digits alone digit k x y

  one_unit_more : (k x y : ℕ) → x ≤ k → on_fuel (suc k) x y ≡ on_fuel k x y
  one_unit_more zero zero y h = refl
  one_unit_more (suc k) zero y h = refl
  one_unit_more zero (suc x) y h = absurd (omega arith)
  one_unit_more (suc k) (suc x) y h =
      ap (λ (v : ℕ). v * 2 + digit (suc x % 2) (y % 2))
        (one_unit_more k (suc x / 2) (y / 2) (omega arith))

  units_more : (extra k x y : ℕ) → x ≤ k → on_fuel (extra + k) x y ≡ on_fuel k x y
  units_more zero k x y h = ap (λ f. on_fuel f x y) (omega arith)
  units_more (suc extra) k x y h =
      rw (suc-add extra k) (one_unit_more (extra + k) x y (omega arith) ∙ units_more extra k x y h)

  -- A positive number's digit, on the fuel that its half needs.
  lowest_digit :
      (x y : ℕ)
      → bitwise alone digit (suc x) y
        ≡ bitwise alone digit (suc x / 2) (y / 2) * 2 + digit (suc x % 2) (y % 2)
  lowest_digit x y =
      let half = suc x / 2 in
      let split : x ≡ x - half + half = omega arith in
      ap (λ (v : ℕ). v * 2 + digit (suc x % 2) (y % 2))
        (ap (λ f. on_fuel f half (y / 2)) split
          ∙ units_more (x - half) half half (y / 2) (omega arith))

pub or_digit : (x y : ℕ) → bit_or x y ≡ bit_or (x / 2) (y / 2) * 2 + max (x % 2) (y % 2)
or_digit zero y = rw (bit_or-bitwise, bit_or-bitwise) (omega arith)
or_digit (suc p) y = rw (bit_or-bitwise, bit_or-bitwise) (lowest_digit (λ v. v) max p y)

pub and_digit : (x y : ℕ) → bit_and x y ≡ bit_and (x / 2) (y / 2) * 2 + min (x % 2) (y % 2)
and_digit zero y = rw (bit_and-bitwise, bit_and-bitwise) (omega arith)
and_digit (suc p) y = rw (bit_and-bitwise, bit_and-bitwise) (lowest_digit (λ _. 0) min p y)

-- Nothing is joined, and nothing is kept; both halve `x`, hence the bound on it.
pub or_nothing : (bound x : ℕ) → x ≤ bound → bit_or x 0 ≡ x
or_nothing bound zero h = refl
or_nothing zero (suc x) h = absurd (omega arith)
or_nothing (suc bound) (suc x) h =
    omega (arith, or_nothing bound (suc x / 2) (omega arith), or_digit (suc x) 0)

pub and_nothing : (bound x : ℕ) → x ≤ bound → bit_and x 0 ≡ 0
and_nothing bound zero h = refl
and_nothing zero (suc x) h = absurd (omega arith)
and_nothing (suc bound) (suc x) h =
    omega (arith, and_nothing bound (suc x / 2) (omega arith), and_digit (suc x) 0)
