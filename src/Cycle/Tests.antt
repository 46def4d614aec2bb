-- ===== src/Cycle/Tests.antt =====
-- Runs of both simulators on small programs.
mod Programs
mod Hazards
mod Ends
use cos375_project.Base.{
  ℕ, ◌+◌, ◌≡◌, ◌≢◌, ◌≤◌, ◌⊎◌, arith, refl, true, false, if◌then◌else◌, get_or,
}
use cos375_project.Utilities.{Status, success, halt, bubble, squashed}
use cos375_project.Cache.{new_cache}
use cos375_project.Simulator.Stages.{sim_mem}
use cos375_project.Loop.{run}
use cos375_project.Funct
use cos375_project.Cycle.{CycleState, nop, init_simulator}
use cos375_project.Cycle.Step.{cycle}
use cos375_project.Cycle.Stall.{IsFrozen, run_in_d_stall}
use cos375_project.Cycle.Nops.{IsQuietPipeline, run-IsQuiet}
use cos375_project.Cycle.Registers.{IsRegisterFile, run-IsRegisterFile}
use cos375_project.Cycle.Exceptions.{IsSquashed, store_in_ex, cycle_squashes, cycle_stores_behind}
use cos375_project.Cycle.Stores.{is_idle, store_of, store_value, cycle-memory}
use cos375_project.Cycle.Runs.{IsCounted, run-IsCounted}
use cos375_project.Cycle.Tests.Programs.{
  machine, image, small, pipeline, overwrite, load_to_store, reset,
}
use cos375_project.Cycle.Tests.Hazards.{add_inst, addi_inst, load_inst, store_inst}

-- What the tests look at: the status, a cell of the memory, x5, and the number of cycles.
abbrev shown : CycleState × Status → Status × ℕ × ℕ × ℕ
shown (s, status) = (
  status,
  get_or s.simulator.memory.mem_arr 48 0,
  get_or s.simulator.registers 5 0,
  s.cycle_count,
)

-- The pipeline stores 1, where the functional simulator stores 2.
overwrite_in_pipeline : shown (run cycle 20 (reset overwrite)) ≡ (halt, 1, 2, 14)
unfolding pipeline
overwrite_in_pipeline = refl

-- A load and the store of the loaded value right behind it: the pipeline stores 0, where the
-- functional simulator stores the 1 that stands in memory.
load_to_store_in_pipeline : shown (run cycle 20 (reset load_to_store)) ≡ (halt, 0, 1, 16)
unfolding pipeline
load_to_store_in_pipeline = refl

abbrev shown_in_order : Funct.Machine × Status → Status × ℕ × ℕ
shown_in_order (m, status) =
    (status, get_or m.simulator.memory.mem_arr 48 0, get_or m.simulator.registers 5 0)

overwrite_in_order :
    shown_in_order (run Funct.step 20 (Funct.init_simulator (image overwrite))) ≡ (halt, 2, 2)
unfolding machine Funct.step Funct.init_simulator
overwrite_in_order = refl

load_to_store_in_order :
    shown_in_order (run Funct.step 20 (Funct.init_simulator (image load_to_store))) ≡ (halt, 1, 1)
unfolding machine Funct.step Funct.init_simulator
load_to_store_in_order = refl

-- The reset machine while three cycles of a D-cache miss are left.
abbrev waiting_machine : CycleState
waiting_machine = record (reset overwrite) { d_stall_left = 3 }

run_in_d_stall_example :
    let r : CycleState × Status = run cycle 2 waiting_machine in
    (r.1 ≡ success)
    × IsFrozen waiting_machine r.0
    × (r.0.d_stall_left + 2 ≡ 3)
    × ((◌≡◌ {A = ℕ} 2 0) ⊎ (r.0.pipeline.wb_inst ≡ nop bubble))
run_in_d_stall_example = run_in_d_stall 2 waiting_machine (omega arith)

run-IsQuiet_example :
    IsQuietPipeline (run cycle 9 (init_simulator true small small (image overwrite))).0.pipeline
run-IsQuiet_example = run-IsQuiet 9 true small small (image overwrite)

run-IsRegisterFile_example :
    IsRegisterFile
      (run cycle 9 (init_simulator true small small (image overwrite))).0.simulator.registers
run-IsRegisterFile_example = run-IsRegisterFile 9 true small small (image overwrite)

-- A load that faulted in MEM, and a store behind it.
abbrev faulty_machine : CycleState
faulty_machine =
    let s : CycleState = reset overwrite in
    record s {
      pipeline = record {
        if_inst = s.pipeline.if_inst;
        id_inst = add_inst;
        ex_inst = store_inst;
        mem_inst = record load_inst { mem_exception = true };
        wb_inst = addi_inst;
      };
    }

cycle_squashes_example :
    IsSquashed faulty_machine (cycle faulty_machine).0 × ((cycle faulty_machine).1 ≡ success)
unfolding init_simulator
cycle_squashes_example = cycle_squashes faulty_machine refl refl refl

-- The store in EX behind the load, its data from the instruction that WB held.
cycle-memory_example : (cycle faulty_machine).0.simulator.memory ≡ (
    if is_idle faulty_machine
    then faulty_machine.simulator.memory
    else store_of faulty_machine.simulator.memory faulty_machine.pipeline.ex_inst
        (store_value faulty_machine.pipeline.ex_inst faulty_machine.pipeline.wb_inst))
unfolding init_simulator
cycle-memory_example = cycle-memory faulty_machine (omega arith)

faulty_machine_stores : is_idle faulty_machine ≡ false
unfolding init_simulator
faulty_machine_stores = refl

cycle_stores_behind_example :
    ((cycle faulty_machine).0.pipeline.mem_inst ≡ nop squashed)
    × ((cycle faulty_machine).0.simulator.memory
        ≡ (sim_mem faulty_machine.simulator (store_in_ex faulty_machine)).1.memory)
unfolding init_simulator
cycle_stores_behind_example = cycle_stores_behind faulty_machine refl refl refl refl refl refl

reset-IsCounted : IsCounted (reset overwrite)
unfolding init_simulator new_cache
reset-IsCounted = record {
  retired = omega arith;
  stalls = omega arith;
  i_accesses = omega arith;
  d_accesses = omega arith;
}

run-IsCounted_example :
    let r : CycleState × Status = run cycle 20 (reset overwrite) in
    (k : ℕ) × (k ≤ 20)
    × (r.0.cycle_count ≡ (reset overwrite).cycle_count + k)
    × IsCounted r.0
    × (((r.1 ≡ success) × (k ≡ 20)) ⊎ ((r.1 ≢ success) × (r.0.pipeline.wb_inst.is_halt ≡ true)))
unfolding init_simulator
run-IsCounted_example = run-IsCounted 20 (reset overwrite) (omega arith) reset-IsCounted
