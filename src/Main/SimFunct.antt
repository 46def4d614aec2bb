-- ===== src/Main/SimFunct.antt =====
-- `main` of src/sim_funct.cpp and `finalizeSimulator` of src/funct.cpp.
pub mod Ends
use cos375_project.Base.{ℕ, Bool, List, [], ◌∷◌, ◌++◌, Option, none, some}
use cos375_project.Text.{Text, codes}
use cos375_project.Utilities.{Status, error}
use cos375_project.Utilities.Dumps.{dump_sim_stats, get_base_filename}
use cos375_project.MemoryStore.{MemoryStore}
use cos375_project.MemoryStore.Prepare.{memory_of_file}
use cos375_project.Funct.{Machine, init_simulator, run_till_halt, finalize_stats}
use cos375_project.Main.{Directory, Outcome, aborted, returned, named, memory_size, dump_reg_mem}

-- `finalizeSimulator`
unfoldable pub finalize_simulator : Directory → Machine → Text → Option (List (Text × Text))
finalize_simulator dir m base =
    let name = base ++ codes "_sim_stats.out" in
    let stats = dump_sim_stats (finalize_stats m) (dir.writable name) in
    elim (dump_reg_mem dir m.simulator base) [
      | none ↦ none
      | some files ↦ some (files ++ named name stats.1)
    ]

unfoldable pub simulate : ℕ → Directory → MemoryStore → Text → Option Outcome
unfolding finalize_simulator
simulate fuel dir mem base = elim (run_till_halt fuel (init_simulator mem)) [
  | none ↦ none
  | some (m, status) ↦ elim (finalize_simulator dir m base) [
    | none ↦ none
    | some files ↦ some (returned status files)
  ]
]

-- `main`, on fuel for the instructions.
unfoldable pub main : ℕ → List Text → Directory → Option Outcome
unfolding simulate
main fuel (program ∷ input_file ∷ more) dir =
    let memory =
      memory_of_file 0 memory_size (dir.read (codes "init_mem_image")) (dir.read input_file) in
    elim memory [
      | none ↦ some aborted
      | some mem ↦ simulate fuel dir mem (get_base_filename input_file ++ codes "_funct")
    ]
main fuel _ dir = some (returned error [])
