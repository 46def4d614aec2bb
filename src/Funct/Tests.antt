-- ===== src/Funct/Tests.antt =====
-- A run of the functional simulator on src/funct.cpp's loops.
use cos375_project.Base.{ℕ, some, ◌+◌, ◌≡◌, ◌≤◌, arith, refl, [], ◌∷◌}
use cos375_project.Utilities.{extract_bits, Status, halt}
use cos375_project.MemoryStore.{get_bytes, valid_size, get_or_set_value, get_mem_value}
use cos375_project.Simulator.{new_simulator}
use cos375_project.Simulator.Decode.{sim_fetch, fetched, decode_fields, sim_decode}
use cos375_project.Simulator.Stages.{sim_instruction}
use cos375_project.Loop.{run}
use cos375_project.Funct.{Machine, step, run_counted, run_instructions}
use cos375_project.Funct.Laws.{EndsAt, run_instructions_din}

-- HALT, as its four bytes.
abbrev halting : Machine
halting = record {
  simulator = new_simulator (record { start_addr = 0; mem_arr = 0xed ∷ 0xfe ∷ 0xed ∷ 0xfe ∷ [] });
  pc = 0;
}

-- Of at most three instructions the first is HALT, which is counted.
halting_halts : (run_counted 3 halting).1 ≡ halt
unfolding run_counted run step sim_instruction sim_decode decode_fields extract_bits sim_fetch
    fetched get_mem_value get_or_set_value get_bytes valid_size new_simulator
halting_halts = refl

run_instructions_din_example :
    (r : Machine × Status) × (run_instructions 0 3 halting ≡ some r)
    × ((k : ℕ) × (k ≤ 3) × (r.0.simulator.din ≡ halting.simulator.din + k) × EndsAt 3 k halting r)
unfolding new_simulator
run_instructions_din_example = run_instructions_din 0 3 halting (omega arith) (omega arith)
