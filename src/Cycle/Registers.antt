-- ===== src/Cycle/Registers.antt =====
-- The register file in `runCycles` (src/cycle.cpp): only WB writes it, and never x0.
use cos375_project.Base.{
  ℕ, ◌≡◌, ◌≢◌, refl, ◌∙◌, arith, Bool, true, not, ◌&&◌, ◌||◌, ◌==◌, ◌!=◌, if◌then◌else◌, if-cases,
  if-keeps, List, length, get_or, length-set, get_or-set_ne, get_or-set_self,
}
use cos375_project.MemoryStore.{MemoryStore}
use cos375_project.Cache.{CacheConfig}
use cos375_project.Simulator.{Instruction, Simulator, new_simulator}
use cos375_project.Simulator.Decode.{sim_operand_collection}
use cos375_project.Simulator.MemAccess.{sim_commit}
use cos375_project.Simulator.Stages.{sim_wb}
use cos375_project.Loop.{run}
use cos375_project.Loop.Laws.{run-keeps}
use cos375_project.Cycle.{CycleState, init_simulator}
use cos375_project.Cycle.Exceptions.{id_stage_keeps, mem_stage_registers}
use cos375_project.Cycle.Stages.{WbResult, retire, wb_stage}
use cos375_project.Cycle.Step.{cycle}

-- 32 registers, and 0 in x0.
pub record IsRegisterFile (registers : List ℕ) : Type 0 where
  pub count : length registers ≡ 32
  pub zero_register : get_or registers 0 0 ≡ 0

sim_commit-IsRegisterFile :
    (inst : Instruction) (registers : List ℕ)
    → inst.rd ≢ 0
    → IsRegisterFile registers
    → IsRegisterFile (sim_commit inst registers)
unfolding sim_commit
sim_commit-IsRegisterFile inst registers ne file = record {
  count = length-set _ _ _ ∙ file.count;
  zero_register = get_or-set_ne registers inst.rd 0 _ 0 ne ∙ file.zero_register;
}

writes-ne : (inst : Instruction) → (inst.writes_rd && inst.rd != 0) ≡ true → inst.rd ≢ 0
writes-ne inst h = ground arith

sim_wb-IsRegisterFile :
    (sim : Simulator) (inst : Instruction)
    → IsRegisterFile sim.registers
    → IsRegisterFile (sim_wb sim inst).1.registers
unfolding sim_wb
sim_wb-IsRegisterFile sim inst file =
    let P : Instruction × Simulator → Type 0 = (λ r. IsRegisterFile r.1.registers) in
    if-keeps P (not inst.is_legal || inst.mem_exception) _ _ file (
      if-keeps P (inst.is_halt || inst.is_nop) _ _ file (
        if-cases (λ (s : Simulator). IsRegisterFile s.registers) (inst.writes_rd && inst.rd != 0) _
          _ (λ h. sim_commit-IsRegisterFile inst sim.registers (writes-ne inst h) file)
          (λ _. file)))

pub retire_simulator :
    (old_mem : Instruction) (n pc : ℕ) (r : Instruction × Simulator)
    → (retire old_mem n pc r).simulator ≡ r.1
unfolding retire
retire_simulator old_mem n pc (written, sim) = refl

wb_stage-IsRegisterFile :
    (d : Bool) (old_mem : Instruction) (sim : Simulator) (n pc : ℕ)
    → IsRegisterFile sim.registers
    → IsRegisterFile (wb_stage d old_mem sim n pc).simulator.registers
unfolding wb_stage
wb_stage-IsRegisterFile d old_mem sim n pc file =
    let P : WbResult → Type 0 = (λ r. IsRegisterFile r.simulator.registers) in
    if-keeps P d _ _ file (
      if-keeps P (not old_mem.is_nop && old_mem.mem_exception) _ _ file (
        rw (retire_simulator old_mem n pc (sim_wb sim old_mem))
          (sim_wb-IsRegisterFile sim old_mem file)))

cycle-IsRegisterFile :
    (s : CycleState)
    → IsRegisterFile s.simulator.registers
    → IsRegisterFile (cycle s).0.simulator.registers
unfolding cycle
cycle-IsRegisterFile s file =
    rw ((id_stage_keeps _ _ _ _ _ _ _ _ _).0, mem_stage_registers _ _ _ _ _ _ _)
      (wb_stage-IsRegisterFile _ _ _ _ _ file)

init_simulator-IsRegisterFile :
    (just_finished : Bool) (i_config d_config : CacheConfig) (mem : MemoryStore)
    → IsRegisterFile (init_simulator just_finished i_config d_config mem).simulator.registers
unfolding init_simulator new_simulator
init_simulator-IsRegisterFile just_finished i_config d_config mem = record {
  count = refl;
  zero_register = refl;
}

-- After any number of cycles from the reset, the register file has 32 registers and 0 in x0.
pub run-IsRegisterFile :
    (n : ℕ) (just_finished : Bool) (i_config d_config : CacheConfig) (mem : MemoryStore)
    → IsRegisterFile
        (run cycle n (init_simulator just_finished i_config d_config mem)).0.simulator.registers
run-IsRegisterFile n just_finished i_config d_config mem =
    run-keeps cycle (λ s. IsRegisterFile s.simulator.registers) cycle-IsRegisterFile n _
      (init_simulator-IsRegisterFile just_finished i_config d_config mem)

-- From any file of 32 registers, whatever its x0 holds, the first operand of an instruction that
-- reads it is 0 for x0 and the register otherwise.
pub sim_operand_collection-x0 :
    (inst : Instruction) (registers : List ℕ)
    → length registers ≡ 32
    → inst.reads_rs1 ≡ true
    → (sim_operand_collection inst registers).op1_val
      ≡ (if inst.rs1 == 0 then 0 else get_or registers inst.rs1 0)
unfolding sim_operand_collection
sim_operand_collection-x0 inst registers count reads = ground (
  arith,
  reads,
  get_or-set_self registers 0 0 0 (omega arith),
  get_or-set_ne registers 0 inst.rs1 0 0,
)
