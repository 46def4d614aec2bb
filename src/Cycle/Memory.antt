-- ===== src/Cycle/Memory.antt =====
-- The memory in `runCycles` (src/cycle.cpp): every cycle keeps it one of bytes, with its number of
-- cells.
use cos375_project.Base.{ℕ, ◌≡◌, Bool, not, ◌&&◌, ◌||◌, if-keeps, arith}
use cos375_project.Cache.{Cache}
use cos375_project.Simulator.{Instruction, Simulator}
use cos375_project.Simulator.Memory.{IsMemoryOf, sim_mem-IsMemoryOf}
use cos375_project.Simulator.MemAccess.{sim_addr_gen}
use cos375_project.Simulator.Stages.{sim_mem, sim_wb}
use cos375_project.Loop.{run}
use cos375_project.Loop.Laws.{run-keeps}
use cos375_project.Cycle.{CycleState}
use cos375_project.Cycle.Exceptions.{id_stage_keeps, time_access_simulator}
use cos375_project.Cycle.Registers.{retire_simulator}
use cos375_project.Cycle.Forward.{forward_store}
use cos375_project.Cycle.Stages.{WbResult, MemResult, is_squashed, wb_stage, enter_mem, mem_stage}
use cos375_project.Cycle.Step.{cycle}

pub sim_wb_memory : (sim : Simulator) (inst : Instruction) → (sim_wb sim inst).1.memory ≡ sim.memory
unfolding sim_wb
sim_wb_memory sim inst = ground arith

module _ (cells : ℕ) where
  wb_stage-IsMemoryOf :
      (d : Bool) (old_mem : Instruction) (sim : Simulator) (n pc : ℕ)
      → IsMemoryOf cells sim.memory
      → IsMemoryOf cells (wb_stage d old_mem sim n pc).simulator.memory
  unfolding wb_stage
  wb_stage-IsMemoryOf d old_mem sim n pc h =
      let P : WbResult → Type 0 = (λ r. IsMemoryOf cells r.simulator.memory) in
      if-keeps P d _ _ h (
        if-keeps P (not old_mem.is_nop && old_mem.mem_exception) _ _ h
          (rw (retire_simulator old_mem n pc (sim_wb sim old_mem), sim_wb_memory sim old_mem) h))

  enter_mem-IsMemoryOf :
      (ex wb : Instruction) (sim : Simulator) (c : Cache) (left : ℕ)
      → IsMemoryOf cells sim.memory
      → IsMemoryOf cells (enter_mem ex wb sim c left).simulator.memory
  unfolding enter_mem
  enter_mem-IsMemoryOf ex wb sim c left h =
      let input = forward_store ex wb in
      let addressed = sim_addr_gen input in
      if-keeps (λ (r : MemResult). IsMemoryOf cells r.simulator.memory)
        (input.reads_mem || input.writes_mem) _ _
        (rw (time_access_simulator addressed c left (sim_mem sim addressed))
          (sim_mem-IsMemoryOf cells sim addressed h))
        (sim_mem-IsMemoryOf cells sim input h)

  mem_stage-IsMemoryOf :
      (d : Bool) (old_mem ex wb : Instruction) (sim : Simulator) (c : Cache) (left : ℕ)
      → IsMemoryOf cells sim.memory
      → IsMemoryOf cells (mem_stage d old_mem ex wb sim c left).simulator.memory
  unfolding mem_stage
  mem_stage-IsMemoryOf d old_mem ex wb sim c left h =
      let P : MemResult → Type 0 = (λ r. IsMemoryOf cells r.simulator.memory) in
      if-keeps P d _ _ h (
        if-keeps P (not ex.is_nop && not (is_squashed ex.status)) _ _
          (enter_mem-IsMemoryOf ex wb sim c left h) h)

  cycle-IsMemoryOf :
      (s : CycleState)
      → IsMemoryOf cells s.simulator.memory
      → IsMemoryOf cells (cycle s).0.simulator.memory
  unfolding cycle
  cycle-IsMemoryOf s h =
      rw ((id_stage_keeps _ _ _ _ _ _ _ _ _).1)
        (mem_stage-IsMemoryOf _ _ _ _ _ _ _ (wb_stage-IsMemoryOf _ _ _ _ _ h))

-- Any number of cycles keeps a memory of bytes with fewer than 2^64 cells one of bytes, and its
-- number of cells.
pub run-IsMemoryOf :
    (n cells : ℕ) (s : CycleState)
    → IsMemoryOf cells s.simulator.memory
    → IsMemoryOf cells (run cycle n s).0.simulator.memory
run-IsMemoryOf n cells s h =
    run-keeps cycle (λ t. IsMemoryOf cells t.simulator.memory) (cycle-IsMemoryOf cells) n s h
