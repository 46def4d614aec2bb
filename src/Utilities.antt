-- ===== src/Utilities.antt =====
-- src/Utilities.h and the bit helpers of src/Utilities.cpp: the encodings of the instruction set, the
-- statuses, the records that are dumped, and `extractBits`, `sext32` and `sext64`.
pub mod Op
pub mod Funct3
pub mod Funct7
pub mod UpperImm
pub mod Fields
pub mod OpString
pub mod Disasm
pub mod Dumps
pub mod Legal
pub mod Offsets
mod Tests
use cos375_project.Base.{
  ℕ, ◌+◌, ◌-◌, ◌^◌, bit_and, bit_or, ◌>>>◌, shl32, shl64, ◌==◌, if◌then◌else◌,
}

pub data Status : Type 0 where
  success error halt : Status

pub data StageStatus : Type 0 where
  normal bubble idle speculative squashed : StageStatus

pub record PipeState : Type 0 where
  pub cycle : ℕ
  pub if_status : StageStatus
  pub if_pc : ℕ
  pub id_status : StageStatus
  pub id_instr : ℕ
  pub ex_status : StageStatus
  pub ex_instr : ℕ
  pub mem_status : StageStatus
  pub mem_instr : ℕ
  pub wb_status : StageStatus
  pub wb_instr : ℕ

pub record SimulationStats : Type 0 where
  pub dynamic_instructions : ℕ
  pub total_cycles : ℕ
  pub ic_hits : ℕ
  pub ic_misses : ℕ
  pub dc_hits : ℕ
  pub dc_misses : ℕ
  pub load_use_stalls : ℕ

-- The mask is an `int`: the callers take at most 20 bits, so it does not overflow.
unfoldable pub extract_bits : ℕ → ℕ → ℕ → ℕ
extract_bits instruction start end =
    let bits_to_extract = start + 1 - end in
    let mask = 2 ^ bits_to_extract - 1 in let clipped = instruction >>> end in bit_and clipped mask

-- Both extensions are those of the source for a sign bit below the top of the word; at the top bit
-- it shifts by the whole width, which is undefined, and no call does that.
unfoldable pub sext32 : ℕ → ℕ → ℕ
sext32 imm sign_bit =
    if bit_and imm (2 ^ sign_bit) == 0 then imm else bit_or imm (shl32 (2 ^ 32 - 1) (sign_bit + 1))

unfoldable pub sext64 : ℕ → ℕ → ℕ
sext64 imm sign_bit =
    if bit_and imm (2 ^ sign_bit) == 0 then imm else bit_or imm (shl64 (2 ^ 64 - 1) (sign_bit + 1))
