-- ===== src/Cache/Config.antt =====
-- The geometry of a cache: what `log2` gives, and that every index lies inside of the table, also
-- where the number of sets is no power of two.
use cos375_project.Base.{
  ℕ, zero, suc, ◌+◌, ◌-◌, ◌*◌, ◌/◌, ◌%◌, ◌^◌, ◌≤◌, ◌<◌, ◌≡◌, refl, arith, Bool-cases, inl, inr, ltb,
  true, false,
}
use native.Mathlib.Nat.{pow-suc, mod-lt}
use cos375_project.Utilities.Fields.{pow-add}
use cos375_project.Bits.{bit_and_mask, two_pow_pos}
use cos375_project.Cache.{Cache, log2, log2_fuel, index_of, tag_of}
use cos375_project.Cache.Reference.{set_index, block_tag}

log2_fuel_stop : (f n : ℕ) → ltb n 2 ≡ true → log2_fuel (suc f) n ≡ 0
unfolding log2_fuel
log2_fuel_stop f n h = rw (log2_fuel, h)

log2_fuel_more : (f n : ℕ) → ltb n 2 ≡ false → log2_fuel (suc f) n ≡ log2_fuel f (n / 2) + 1
unfolding log2_fuel
log2_fuel_more f n h = rw (log2_fuel, h)

log2_fuel_bounds :
    (f n : ℕ) → 0 < n → n < 2 ^ f → (2 ^ log2_fuel f n ≤ n) × (n < 2 ^ (log2_fuel f n + 1))
log2_fuel_bounds zero n pos h = absurd (omega arith)
log2_fuel_bounds (suc f) n pos h = elim (Bool-cases (ltb n 2)) [
  | inl y ↦ rw (log2_fuel_stop f n y) (ground arith, ground arith)
  | inr more ↦
      let r : ℕ = log2_fuel f (n / 2) in
      let big : 2 ≤ n = ground arith in
      let rest = log2_fuel_bounds f (n / 2) (omega arith) (omega (arith, pow-suc 2 f)) in
      rw (log2_fuel_more f n more)
        (omega (arith, rest, pow-add r 1), omega (arith, rest, pow-add (r + 1) 1))
]

-- For a word n that is not 0, 2^(log2 n) is at most n and n is below 2^(log2 n + 1).
pub log2_bounds : (n : ℕ) → 0 < n → n < 2 ^ 64 → (2 ^ log2 n ≤ n) × (n < 2 ^ (log2 n + 1))
unfolding log2
log2_bounds n pos h = log2_fuel_bounds 64 n pos h

module _ (c : Cache) (address : ℕ) (h : 2 ^ c.index_bits < 2 ^ 64) where
  pub index_of_lem : index_of c address ≡ set_index c.offset_bits c.index_bits address
  unfolding index_of set_index
  index_of_lem =
      let one : 1 * 2 ^ c.index_bits % 2 ^ 64 ≡ 2 ^ c.index_bits = omega arith in
      let mask : (2 ^ c.index_bits + 2 ^ 64 - 1) % 2 ^ 64 ≡ 2 ^ c.index_bits - 1 =
        omega (arith, two_pow_pos c.index_bits) in
      rw (one, mask, bit_and_mask c.index_bits (address / 2 ^ c.offset_bits))

  pub index_of-lt : index_of c address < 2 ^ c.index_bits
  unfolding set_index
  index_of-lt =
      rw (index_of_lem, set_index) (mod-lt (address / 2 ^ c.offset_bits) (two_pow_pos c.index_bits))

  pub tag_of_lem : tag_of c address ≡ block_tag c.offset_bits c.index_bits address
  unfolding tag_of block_tag
  tag_of_lem = refl
