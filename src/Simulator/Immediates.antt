-- ===== src/Simulator/Immediates.antt =====
-- The immediates that src/simulator.cpp puts together again, against the layout of the S, B and J
-- types.
use cos375_project.Base.{ℕ, ◌+◌, ◌*◌, ◌/◌, ◌%◌, ◌^◌, ◌<◌, ◌≡◌, ◌∙◌, ap, arith, bit_or, shl64}
use cos375_project.Bits.{bit_or_high, bit_or_bit, bit_or_fields, bit_or-zero}
use cos375_project.Utilities.{extract_bits, sext64}
use cos375_project.Utilities.Fields.{extract_bits_lem}
use cos375_project.Simulator.MemAccess.{store_imm}
use cos375_project.Simulator.NextPc.{branch_imm, jal_imm}

-- For an offset below 2^12, split into funct7 and rd as the S type does, the immediate is the
-- offset with its bit 11 extended.
pub store_imm_lem :
    (offset : ℕ) → offset < 2 ^ 12 → store_imm (offset / 32) (offset % 32) ≡ sext64 offset 11
unfolding store_imm
store_imm_lem offset h =
    ap (λ imm. sext64 imm 11)
      (ground (arith, bit_or_high 5 (offset / 32) (offset % 32) (omega arith)))

-- The B type holds bits 12 and 10:5 of the offset in `funct7`, and bits 4:1 and 11 in `rd`.
abbrev pub b_high : ℕ → ℕ
b_high offset = offset / 4096 * 64 + offset / 32 % 64

abbrev pub b_low : ℕ → ℕ
b_low offset = offset / 2 % 16 * 2 + offset / 2048 % 2

branch_joined :
    (b12 m l b11 : ℕ)
    → b12 < 2
    → m < 64
    → l < 16
    → b11 < 2
    → bit_or (bit_or (bit_or (shl64 b12 12) (shl64 m 5)) (shl64 l 1)) (shl64 b11 11)
      ≡ b12 * 4096 + b11 * 2048 + m * 32 + l * 2
branch_joined b12 m l b11 h12 hm hl h11 = ground (
  arith,
  bit_or_high 12 b12 (m * 32) (omega arith),
  bit_or_high 5 (b12 * 128 + m) (l * 2) (omega arith),
  bit_or_bit 11 b12 (m * 32 + l * 2) b11 (omega arith) h11,
)

-- For an even offset below 2^13, split into funct7 and rd as the B type does, the immediate is the
-- offset with its bit 12 extended.
pub branch_imm_lem :
    (offset : ℕ)
    → offset < 2 ^ 13
    → offset % 2 ≡ 0
    → branch_imm (b_high offset) (b_low offset) ≡ sext64 offset 12
unfolding branch_imm
branch_imm_lem offset h even =
    let b12 : extract_bits (b_high offset) 6 6 ≡ offset / 4096 =
      extract_bits_lem (b_high offset) 6 6 ∙ omega arith in
    let middle : extract_bits (b_high offset) 5 0 ≡ offset / 32 % 64 =
      extract_bits_lem (b_high offset) 5 0 ∙ omega arith in
    let low : extract_bits (b_low offset) 4 1 ≡ offset / 2 % 16 =
      extract_bits_lem (b_low offset) 4 1 ∙ omega arith in
    let b11 : extract_bits (b_low offset) 0 0 ≡ offset / 2048 % 2 =
      extract_bits_lem (b_low offset) 0 0 ∙ omega arith in
    let joined =
      branch_joined (offset / 4096) (offset / 32 % 64) (offset / 2 % 16) (offset / 2048 % 2)
        (omega arith) (omega arith) (omega arith) (omega arith) in
    rw (b12, middle, low, b11) (ap (λ imm. sext64 imm 12) (joined ∙ omega arith))

-- The J type holds bits 20, 10:1, 11 and 19:12 of the offset.
abbrev pub j_field : ℕ → ℕ
j_field offset =
    offset / 1048576 * 524288
    + offset / 2 % 1024 * 512
    + offset / 2048 % 2 * 256
    + offset / 4096 % 256

jump_joined :
    (b20 l b11 m : ℕ)
    → b20 < 2
    → l < 1024
    → b11 < 2
    → m < 256
    → bit_or (bit_or (bit_or (shl64 b20 20) (shl64 l 1)) (shl64 b11 11)) (shl64 m 12)
      ≡ b20 * 1048576 + m * 4096 + b11 * 2048 + l * 2
jump_joined b20 l b11 m h20 hl h11 hm = ground (
  arith,
  bit_or_high 20 b20 (l * 2) (omega arith),
  bit_or_bit 11 (b20 * 256) (l * 2) b11 (omega arith) h11,
  bit_or_fields 12 (b20 * 256) (b11 * 2048 + l * 2) m 0 (omega arith) (omega arith),
  bit_or_high 8 b20 m (omega arith),
  bit_or-zero (b11 * 2048 + l * 2),
)

-- For an even offset below 2^21, split into the upper 20 bits as the J type does, the immediate is
-- the offset with its bit 20 extended.
pub jal_imm_lem :
    (offset : ℕ) → offset < 2 ^ 21 → offset % 2 ≡ 0 → jal_imm (j_field offset) ≡ sext64 offset 20
unfolding jal_imm
jal_imm_lem offset h even =
    let b20 : extract_bits (j_field offset) 19 19 ≡ offset / 1048576 =
      extract_bits_lem (j_field offset) 19 19 ∙ omega arith in
    let low : extract_bits (j_field offset) 18 9 ≡ offset / 2 % 1024 =
      extract_bits_lem (j_field offset) 18 9 ∙ omega arith in
    let b11 : extract_bits (j_field offset) 8 8 ≡ offset / 2048 % 2 =
      extract_bits_lem (j_field offset) 8 8 ∙ omega arith in
    let middle : extract_bits (j_field offset) 7 0 ≡ offset / 4096 % 256 =
      extract_bits_lem (j_field offset) 7 0 ∙ omega arith in
    let joined =
      jump_joined (offset / 1048576) (offset / 2 % 1024) (offset / 2048 % 2) (offset / 4096 % 256)
        (omega arith) (omega arith) (omega arith) (omega arith) in
    rw (b20, low, b11, middle) (ap (λ imm. sext64 imm 20) (joined ∙ omega arith))
