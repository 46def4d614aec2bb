-- ===== src/Cycle/HaltStages.antt =====
-- HALT on its way from EX to WB through the stages of src/cycle.cpp.
use cos375_project.Base.{ℕ, ◌≡◌, refl, ◌∙◌, arith, true, false, not, ◌&&◌, ◌||◌, if-keeps, add64}
use cos375_project.Utilities.{halt}
use cos375_project.Simulator.{Instruction, Simulator}
use cos375_project.Simulator.Stages.{sim_mem, sim_wb}
use cos375_project.Cycle.{CycleState, PipelineInfo}
use cos375_project.Cycle.Stages.{wb_stage, retire, set_status, is_squashed, enter_mem, mem_stage}
use cos375_project.Cache.{Cache}
use cos375_project.Cycle.Forward.{forward_store}
use cos375_project.Cycle.Step.{cycle, squash_younger}

-- A HALT without a fault.
pub record IsHalting (inst : Instruction) : Type 0 where
  pub is_halt : inst.is_halt ≡ true
  pub mem_exception : inst.mem_exception ≡ false

sim_wb_halt : (sim : Simulator) (inst : Instruction) → (sim_wb sim inst).0.is_halt ≡ inst.is_halt
unfolding sim_wb
sim_wb_halt sim inst = ground arith

wb_stage_halt :
    (inst : Instruction) (sim : Simulator) (dyn_retired next_pc : ℕ)
    → IsHalting inst
    → (wb_stage false inst sim dyn_retired next_pc).new_wb.is_halt ≡ true
unfolding wb_stage retire
wb_stage_halt inst sim dyn_retired next_pc h =
    let written = sim_wb_halt sim inst ∙ h.is_halt in
    let retired =
      if-keeps (λ (i : Instruction). i.is_halt ≡ true) (sim_wb sim inst).0.is_nop
        (set_status inst.status (sim_wb sim inst).0) (sim_wb sim inst).0 written written in
    let sound : (not inst.is_nop && inst.mem_exception) ≡ false = ground (arith, h.mem_exception) in
    rw sound retired

pub cycle-halt :
    (s : CycleState) → s.d_stall_left ≡ 0 → IsHalting s.pipeline.mem_inst → (cycle s).1 ≡ halt
unfolding cycle
cycle-halt s ready h =
    let stopped = wb_stage_halt s.pipeline.mem_inst s.simulator s.dyn_retired (add64 s.pc 4) h in
    rw (ready, stopped) refl

-- A HALT that EX hands on, and in front of it in MEM an instruction without a fault.
pub record IsAhead (p : PipelineInfo) : Type 0 where
  pub is_halt : p.ex_inst.is_halt ≡ true
  pub is_nop : p.ex_inst.is_nop ≡ false
  pub status : is_squashed p.ex_inst.status ≡ false
  pub reads_mem : p.ex_inst.reads_mem ≡ false
  pub writes_mem : p.ex_inst.writes_mem ≡ false
  pub mem_exception : p.ex_inst.mem_exception ≡ false
  pub older_is_legal : p.mem_inst.is_legal ≡ true
  pub older_mem_exception : p.mem_inst.mem_exception ≡ false

sim_wb_sound :
    (sim : Simulator) (inst : Instruction)
    → ((sim_wb sim inst).0.is_legal ≡ inst.is_legal)
      × ((sim_wb sim inst).0.mem_exception ≡ inst.mem_exception)
unfolding sim_wb
sim_wb_sound sim inst = (ground arith, ground arith)

pub wb_stage_sound :
    (inst : Instruction) (sim : Simulator) (dyn_retired next_pc : ℕ)
    → inst.is_legal ≡ true
    → inst.mem_exception ≡ false
    → (wb_stage false inst sim dyn_retired next_pc).wb_mem_exception ≡ false
unfolding wb_stage retire
wb_stage_sound inst sim dyn_retired next_pc legal no_exception =
    let (same_legal, same_exception) = sim_wb_sound sim inst in
    let sound : (not inst.is_nop && inst.mem_exception) ≡ false = ground (arith, no_exception) in
    let P : Instruction → Type 0 = (λ i. (not i.is_legal || i.mem_exception) ≡ false) in
    let written : P (sim_wb sim inst).0 =
      rw (same_legal, same_exception, legal, no_exception) refl in
    rw sound (
      if-keeps P (sim_wb sim inst).0.is_nop (set_status inst.status (sim_wb sim inst).0)
        (sim_wb sim inst).0 written written)

module _ (sim : Simulator) (inst : Instruction) (no_read : inst.reads_mem ≡ false)
    (no_write : inst.writes_mem ≡ false) where
  sim_mem-passes :
      ((sim_mem sim inst).0.is_halt ≡ inst.is_halt)
      × ((sim_mem sim inst).0.mem_exception ≡ inst.mem_exception)
  unfolding sim_mem
  sim_mem-passes = (ground (arith, no_read, no_write), ground (arith, no_read, no_write))

enter_mem-passes :
    (p : PipelineInfo) (sim : Simulator) (c : Cache)
    → IsAhead p
    → let entered = enter_mem p.ex_inst p.wb_inst sim c 0 in
      IsHalting entered.new_mem × (entered.d_stall_left ≡ 0)
unfolding enter_mem forward_store
enter_mem-passes p sim c h =
    let input = forward_store p.ex_inst p.wb_inst in
    let (halts, sound) = sim_mem-passes sim input h.reads_mem h.writes_mem in
    let quiet : (p.ex_inst.reads_mem || p.ex_inst.writes_mem) ≡ false =
      rw (h.reads_mem, h.writes_mem) refl in
    rw quiet (record { is_halt = halts ∙ h.is_halt; mem_exception = sound ∙ h.mem_exception }, refl)

mem_stage-IsHalting :
    (p : PipelineInfo) (sim : Simulator) (c : Cache)
    → IsAhead p
    → IsHalting (mem_stage false p.mem_inst p.ex_inst p.wb_inst sim c 0).new_mem
      × ((mem_stage false p.mem_inst p.ex_inst p.wb_inst sim c 0).d_stall_left ≡ 0)
unfolding mem_stage
mem_stage-IsHalting p sim c h =
    let (halting, ready) = enter_mem-passes p sim c h in
    let entered = enter_mem p.ex_inst p.wb_inst sim c 0 in
    let marked : IsHalting (set_status p.ex_inst.status entered.new_mem) = record {
      is_halt = halting.is_halt;
      mem_exception = halting.mem_exception;
    } in
    let kept =
      if-keeps IsHalting entered.new_mem.is_nop (set_status p.ex_inst.status entered.new_mem)
        entered.new_mem marked halting in
    let goes : (not p.ex_inst.is_nop && not (is_squashed p.ex_inst.status)) ≡ true =
      rw (h.is_nop, h.status) refl in
    rw goes (kept, ready)

-- A cycle in which nothing is waited for brings HALT from EX to MEM.
pub cycle-IsHalting :
    (s : CycleState)
    → s.d_stall_left ≡ 0
    → IsAhead s.pipeline
    → IsHalting (cycle s).0.pipeline.mem_inst × ((cycle s).0.d_stall_left ≡ 0)
unfolding cycle squash_younger
cycle-IsHalting s ready h =
    let p = s.pipeline in
    let sound =
      wb_stage_sound p.mem_inst s.simulator s.dyn_retired (add64 s.pc 4) h.older_is_legal
        h.older_mem_exception in
    let wb = wb_stage false p.mem_inst s.simulator s.dyn_retired (add64 s.pc 4) in
    let (halting, still) = mem_stage-IsHalting p wb.simulator s.d_cache h in
    rw (ready, sound) (halting, still)
