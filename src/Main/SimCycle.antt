-- ===== src/Main/SimCycle.antt =====
-- `main` of src/sim_cycle.cpp and `finalizeSimulator` of src/cycle.cpp.
pub mod PipeLines
pub mod Ends
use cos375_project.Base.{ℕ, Bool, false, List, [], ◌∷◌, ◌++◌, Option, none, some, if◌then◌else◌}
use cos375_project.Text.{Text, codes}
use cos375_project.Utilities.{Status, error}
use cos375_project.Utilities.Dumps.{PipeFile, dump_sim_stats, get_base_filename}
use cos375_project.Cache.{CacheConfig}
use cos375_project.MemoryStore.{MemoryStore}
use cos375_project.MemoryStore.Prepare.{memory_of_file}
use cos375_project.Cycle.{CycleState, init_simulator}
use cos375_project.Cycle.Step.{Session, run_till_halt, finalize_stats}
use cos375_project.Main.{
  Directory, Outcome, exited, aborted, returned, named, memory_size, dump_reg_mem, dump_all,
}
use cos375_project.Main.Config.{parse_args}

-- `finalizeSimulator`
unfoldable pub finalize_simulator : Directory → CycleState → Text → Option (List (Text × Text))
finalize_simulator dir s base =
    let name = base ++ codes "_sim_stats.out" in
    let stats = dump_sim_stats (finalize_stats s) (dir.writable name) in
    elim (dump_reg_mem dir s.simulator base) [
      | none ↦ none
      | some files ↦ some (files ++ named name stats.1)
    ]

-- The file of the pipeline's states, from the dumps of a run.
unfoldable pub pipe_file : Directory → Session → Text → List (Text × Text)
unfolding dump_all
pipe_file dir session base =
    let name = base ++ codes "_pipe_state.out" in
    let file : PipeFile = record {
      file_init = false;
      content = (if dir.writable name then some [] else none);
    } in
    named name (dump_all session.dumps file).content

-- The run from the initial state on; the static variables start at zero.
unfoldable pub simulate :
    ℕ → Directory → CacheConfig → CacheConfig → MemoryStore → Text → Option Outcome
unfolding finalize_simulator pipe_file
simulate fuel dir ic_config dc_config mem base =
    elim (run_till_halt fuel
      (record { state = init_simulator false ic_config dc_config mem; dumps = [] })) [
        | none ↦ none
        | some (session, status) ↦ elim (finalize_simulator dir session.state base) [
          | none ↦ none
          | some files ↦ some (returned status (pipe_file dir session base ++ files))
        ]
      ]

-- `main`, on fuel for the cycles.
unfoldable pub main : ℕ → List Text → Directory → Option Outcome
unfolding simulate
main fuel args dir = elim (parse_args args dir.read) [
  | none ↦ some (exited error)
  | some (input_file, ic_config, dc_config) ↦
      let memory =
        memory_of_file 0 memory_size (dir.read (codes "init_mem_image")) (dir.read input_file) in
      elim memory [
        | none ↦ some aborted
        | some mem ↦
            simulate fuel dir ic_config dc_config mem
              (get_base_filename input_file ++ codes "_cycle")
      ]
]
