-- ===== src/Funct.antt =====
-- src/funct.cpp: the functional simulator, an instruction at a time.
pub mod Laws
mod Tests
use cos375_project.Base.{ℕ, zero, suc, Option, none, some, not, ◌==◌, if◌then◌else◌}
use cos375_project.Utilities.{Status, success, error, halt, SimulationStats}
use cos375_project.MemoryStore.{MemoryStore}
use cos375_project.Simulator.{Instruction, Simulator, new_simulator}
use cos375_project.Simulator.Stages.{sim_instruction}
use cos375_project.Loop.{run, run_until}

-- The static variables of the file.
pub record Machine : Type 0 where
  pub simulator : Simulator
  pub pc : ℕ

-- The program starts with `PC` at 0; `initSimulator` does not set it.
unfoldable pub init_simulator : MemoryStore → Machine
init_simulator mem = record { simulator = new_simulator mem; pc = 0 }

-- A round of the loop of `runInstructions`.
unfoldable pub step : Machine → Machine × Status
step m =
    let (inst, sim) = sim_instruction m.simulator m.pc in
    (
      record { simulator = sim; pc = inst.next_pc },
      (if inst.is_halt then halt else (if not inst.is_legal then error else success)),
    )

-- The loop of `runInstructions` for a number of instructions that is not 0.
unfoldable pub run_counted : ℕ → Machine → Machine × Status
run_counted n m = run step n m

-- The loop of `runInstructions(0)`, which has no bound, on fuel.
unfoldable pub run_unbounded : ℕ → Machine → Option (Machine × Status)
run_unbounded fuel m = run_until step fuel m

-- `runInstructions`; the fuel is for 0 alone.
unfoldable pub run_instructions : ℕ → ℕ → Machine → Option (Machine × Status)
unfolding run_counted run_unbounded
run_instructions fuel n m = if n == 0 then run_unbounded fuel m else some (run_counted n m)

-- `runTillHalt`, on fuel, by calls of `runInstructions(1)`.
unfoldable pub run_till_halt : ℕ → Machine → Option (Machine × Status)
unfolding run_counted
run_till_halt fuel m = run_until (run_counted 1) fuel m

-- The statistics of `finalizeSimulator`.
unfoldable pub finalize_stats : Machine → SimulationStats
finalize_stats m = record {
  dynamic_instructions = m.simulator.din;
  total_cycles = 0;
  ic_hits = 0;
  ic_misses = 0;
  dc_hits = 0;
  dc_misses = 0;
  load_use_stalls = 0;
}
