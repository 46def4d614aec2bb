-- ===== src/Cycle.antt =====
-- src/cycle.cpp: the state of the five-stage pipeline. The children follow `runCycles` from stage to
-- stage.
pub mod Hazard
pub mod Forward
pub mod Stages
pub mod Fetch
pub mod Step
pub mod Nops
pub mod Youngest
pub mod Stall
pub mod Exceptions
pub mod Counts
pub mod Store
pub mod Loads
pub mod Registers
pub mod Memory
pub mod Stores
pub mod Runs
pub mod HaltStages
pub mod Branches
pub mod Halts
mod Tests
use cos375_project.Base.{ℕ, Bool, true, false}
use cos375_project.Utilities.{StageStatus, idle}
use cos375_project.MemoryStore.{MemoryStore}
use cos375_project.Cache.{Cache, CacheConfig, new_cache, i_cache, d_cache}
use cos375_project.Simulator.{Instruction, Simulator, blank, new_simulator}

-- `nop`
abbrev pub nop : StageStatus → Instruction
nop status = record blank {
  instruction = 0x00000013;
  is_legal = true;
  is_nop = true;
  status = status;
}

-- `PipelineInfo`: the instruction that each stage held in the last cycle.
pub record PipelineInfo : Type 0 where
  pub if_inst : Instruction
  pub id_inst : Instruction
  pub ex_inst : Instruction
  pub mem_inst : Instruction
  pub wb_inst : Instruction

-- The static variables of the file.
pub record CycleState : Type 0 where
  pub simulator : Simulator
  pub i_cache : Cache
  pub d_cache : Cache
  pub cycle_count : ℕ
  pub dyn_retired : ℕ
  pub pc : ℕ
  pub load_use_stall_count : ℕ
  pub squash_next_if : Bool
  pub i_stall_left : ℕ
  pub d_stall_left : ℕ
  pub was_i_stalled : Bool
  pub just_finished_i_stall : Bool
  pub stalled_for_hazard : Bool
  pub pipeline : PipelineInfo

-- `initSimulator`: everything is set but `justFinishedIStall`, which stays as it was.
unfoldable pub init_simulator : Bool → CacheConfig → CacheConfig → MemoryStore → CycleState
init_simulator just_finished i_cache_config d_cache_config mem = record {
  simulator = new_simulator mem;
  i_cache = new_cache i_cache_config i_cache;
  d_cache = new_cache d_cache_config d_cache;
  cycle_count = 0;
  dyn_retired = 0;
  pc = 0;
  load_use_stall_count = 0;
  squash_next_if = false;
  i_stall_left = 0;
  d_stall_left = 0;
  was_i_stalled = false;
  just_finished_i_stall = just_finished;
  stalled_for_hazard = false;
  pipeline = record {
    if_inst = nop idle;
    id_inst = nop idle;
    ex_inst = nop idle;
    mem_inst = nop idle;
    wb_inst = nop idle;
  };
}
