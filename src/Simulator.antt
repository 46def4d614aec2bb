-- ===== src/Simulator.antt =====
-- src/simulator.h: the state of the machine and of one instruction on its way through it. The
-- children follow src/simulator.cpp from decoding to the stages.
pub mod Decode
pub mod NextPc
pub mod ArithLogic
pub mod MemAccess
pub mod Memory
pub mod Stages
pub mod Immediates
pub mod Encoding
pub mod Faults
pub mod Signals
mod Tests
use cos375_project.Base.{ℕ, Bool, true, false, List, replicate}
use cos375_project.Utilities.{StageStatus, normal}
use cos375_project.MemoryStore.{MemoryStore}

-- `EXCEPTION_HANDLER`
abbrev pub exception_handler : ℕ
exception_handler = 0x8000

-- `Simulator::Instruction`
pub record Instruction : Type 0 where
  pub pc : ℕ
  pub instruction : ℕ
  pub is_halt : Bool
  pub is_legal : Bool
  pub is_nop : Bool
  pub reads_mem : Bool
  pub writes_mem : Bool
  pub does_arith_logic : Bool
  pub writes_rd : Bool
  pub reads_rs1 : Bool
  pub reads_rs2 : Bool
  pub opcode : ℕ
  pub funct3 : ℕ
  pub funct7 : ℕ
  pub rd : ℕ
  pub rs1 : ℕ
  pub rs2 : ℕ
  pub next_pc : ℕ
  pub op1_val : ℕ
  pub op2_val : ℕ
  pub arith_result : ℕ
  pub mem_address : ℕ
  pub mem_exception : Bool
  pub mem_result : ℕ
  pub val_to_write : ℕ
  pub instruction_id : ℕ
  pub din_counted : Bool
  pub status : StageStatus

-- The initialisers of its fields.
abbrev pub blank : Instruction
blank = record {
  pc = 0;
  instruction = 0;
  is_halt = false;
  is_legal = false;
  is_nop = false;
  reads_mem = false;
  writes_mem = false;
  does_arith_logic = false;
  writes_rd = false;
  reads_rs1 = false;
  reads_rs2 = false;
  opcode = 0;
  funct3 = 0;
  funct7 = 0;
  rd = 0;
  rs1 = 0;
  rs2 = 0;
  next_pc = 0;
  op1_val = 0;
  op2_val = 0;
  arith_result = 0;
  mem_address = 0;
  mem_exception = false;
  mem_result = 0;
  val_to_write = 0;
  instruction_id = 0;
  din_counted = false;
  status = normal;
}

-- `Simulator`, with the register file as the array of the union.
pub record Simulator : Type 0 where
  pub registers : List ℕ
  pub memory : MemoryStore
  pub din : ℕ
  pub count_din : Bool

-- The constructor, and `setMemory`.
unfoldable pub new_simulator : MemoryStore → Simulator
new_simulator memory = record {
  registers = replicate 32 0;
  memory = memory;
  din = 0;
  count_din = true;
}
