-- ===== src/Main/SimCycle/Ends.antt =====
-- How `main` of src/sim_cycle.cpp ends.
use cos375_project.Base.{ℕ, suc, ◌≡◌, refl, ap, ◌∙◌, arith, true, false, List, [], ◌∷◌, ◌++◌, some}
use cos375_project.Text.{Text, codes}
use cos375_project.Utilities.{Status, success, halt}
use cos375_project.Utilities.Dumps.{stats_text, dump_sim_stats, get_base_filename}
use cos375_project.Cache.{CacheConfig}
use cos375_project.Cache.Trace.{IsConfig}
use cos375_project.MemoryStore.{MemoryStore}
use cos375_project.MemoryStore.Prepare.{memory_of_file}
use cos375_project.MemoryStore.Access.{IsMemory}
use cos375_project.RegisterInfo.{reg_of, register_text}
use cos375_project.Simulator.{new_simulator}
use cos375_project.Simulator.Memory.{IsMemoryOf}
use cos375_project.Loop.{run}
use cos375_project.Cycle.{CycleState, init_simulator}
use cos375_project.Cycle.Memory.{run-IsMemoryOf}
use cos375_project.Cycle.Step.{cycle, Session, run_till_halt, finalize_stats}
use cos375_project.Main.{Directory, returned, named, memory_size}
use cos375_project.Main.Config.{parse_args}
use cos375_project.Main.Memories.{memory_of_file-IsMemoryOf}
use cos375_project.Main.PipeStates.{pipe_text}
use cos375_project.Main.Outcomes.{IsMemoryText, dump_reg_mem-returns}
use cos375_project.Main.SimCycle.{finalize_simulator, pipe_file, simulate, main}
use cos375_project.Main.SimCycle.PipeLines.{pipe_lines, run_till_halt-pipe_lines, dump_all-content}

-- The files of `finalizeSimulator`, in front of them that of the dumps.
abbrev pub files_of : Text → Text → CycleState → Text → List (Text × Text)
files_of base pipe s mem_text =
    (base ++ codes "_pipe_state.out", pipe)
    ∷ (base ++ codes "_reg_state.out", register_text (reg_of s.simulator.registers))
    ∷ (base ++ codes "_mem_state.out", mem_text)
    ∷ (base ++ codes "_sim_stats.out", stats_text (finalize_stats s))
    ∷ []

finalize_simulator-returns :
    (dir : Directory) (s : CycleState) (base : Text)
    → ((name : Text) → dir.writable name ≡ true)
    → IsMemory s.simulator.memory
    → (text : Text) × IsMemoryText dir s.simulator.memory text
      × (finalize_simulator dir s base
          ≡ some (
              (base ++ codes "_reg_state.out", register_text (reg_of s.simulator.registers))
              ∷ (base ++ codes "_mem_state.out", text)
              ∷ (base ++ codes "_sim_stats.out", stats_text (finalize_stats s))
              ∷ []))
unfolding finalize_simulator dump_sim_stats named
finalize_simulator-returns dir s base opens h =
    let (text, is_text, ends) = dump_reg_mem-returns dir s.simulator base opens h in
    (text, is_text, rw (finalize_simulator, ends, opens (base ++ codes "_sim_stats.out")) refl)

pipe_file-content :
    (dir : Directory) (session : Session) (base pipe : Text)
    → ((name : Text) → dir.writable name ≡ true)
    → pipe_text session.dumps ≡ pipe
    → pipe_file dir session base ≡ (base ++ codes "_pipe_state.out", pipe) ∷ []
unfolding pipe_file named
pipe_file-content dir session base pipe opens e =
    rw (pipe_file, opens (base ++ codes "_pipe_state.out"), dump_all-content session.dumps pipe e)
      refl

simulate_ends :
    (fuel : ℕ) (dir : Directory) (ic_config dc_config : CacheConfig) (mem : MemoryStore)
    (base : Text) (last : Session) (status : Status) (pipe files : List (Text × Text))
    → run_till_halt fuel
        (record { state = init_simulator false ic_config dc_config mem; dumps = [] })
      ≡ some (last, status)
    → finalize_simulator dir last.state base ≡ some files
    → pipe_file dir last base ≡ pipe
    → simulate fuel dir ic_config dc_config mem base ≡ some (returned status (pipe ++ files))
unfolding simulate
simulate_ends fuel dir ic_config dc_config mem base last status pipe files ends done file =
    rw (simulate, ends, done, file) refl

-- A run of the simulator from its initial state that halts in cycle k + 1.
simulate-returned :
    (k : ℕ) (dir : Directory) (ic_config dc_config : CacheConfig) (mem : MemoryStore) (base : Text)
    → ((name : Text) → dir.writable name ≡ true)
    → IsMemoryOf memory_size mem
    → (run cycle k (init_simulator false ic_config dc_config mem)).1 ≡ success
    → (run cycle (suc k) (init_simulator false ic_config dc_config mem)).1 ≡ halt
    → let start : CycleState = init_simulator false ic_config dc_config mem in
      let end : CycleState = (run cycle (suc k) start).0 in
      (text : Text) × IsMemoryText dir end.simulator.memory text
      × (simulate (suc k) dir ic_config dc_config mem base
          ≡ some (returned halt (files_of base (pipe_lines (suc k) start) end text)))
simulate-returned k dir ic_config dc_config mem base opens whole ok halts =
    let start : CycleState = init_simulator false ic_config dc_config mem in
    let end : CycleState = (run cycle (suc k) start).0 in
    let (last, ends, state, pipe) =
      run_till_halt-pipe_lines k (record { state = start; dumps = [] }) ok halts in
    let kept =
      run-IsMemoryOf (suc k) memory_size start (unfold init_simulator new_simulator in whole) in
    let (text, is_text, done) = finalize_simulator-returns dir end base opens kept.memory in
    let file = pipe_file-content dir last base (pipe_lines (suc k) start) opens pipe in
    (
      text,
      is_text,
      simulate_ends (suc k) dir ic_config dc_config mem base last halt _ _ ends
          (ap (λ s. finalize_simulator dir s base) state ∙ done) file,
    )

-- Where every file can be opened for writing, the arguments and the configuration file are
-- accepted, both configurations are usable (at least one way and one set, a size below 2^64), the
-- constructor of the memory passes its assertion, and the pipeline, from the initial state, runs k
-- cycles and brings HALT in the next, main of the pipeline on fuel k + 1 returns HALT, and has
-- written exactly four files: a line for the state after each of these cycles, in their order, and
-- the registers, the memory, whose dump ends, and the statistics of the state that they leave.
pub main-returned :
    (k : ℕ) (program input_file cache_file : Text) (dir : Directory)
    (ic_config dc_config : CacheConfig) (mem : MemoryStore)
    → ((name : Text) → dir.writable name ≡ true)
    → IsConfig ic_config
    → IsConfig dc_config
    → parse_args (program ∷ input_file ∷ cache_file ∷ []) dir.read
      ≡ some (input_file, ic_config, dc_config)
    → memory_of_file 0 memory_size (dir.read (codes "init_mem_image")) (dir.read input_file)
      ≡ some mem
    → (run cycle k (init_simulator false ic_config dc_config mem)).1 ≡ success
    → (run cycle (suc k) (init_simulator false ic_config dc_config mem)).1 ≡ halt
    → let start : CycleState = init_simulator false ic_config dc_config mem in
      let end : CycleState = (run cycle (suc k) start).0 in
      let base : Text = get_base_filename input_file ++ codes "_cycle" in
      (text : Text) × IsMemoryText dir end.simulator.memory text
      × (main (suc k) (program ∷ input_file ∷ cache_file ∷ []) dir
          ≡ some (returned halt (files_of base (pipe_lines (suc k) start) end text)))
unfolding main
main-returned k program input_file cache_file dir ic_config dc_config mem opens ic dc parsed found
      ok halts =
    let base = get_base_filename input_file ++ codes "_cycle" in
    let whole =
      memory_of_file-IsMemoryOf memory_size 0 (dir.read (codes "init_mem_image"))
        (dir.read input_file) mem (omega arith) found in
    let (text, is_text, returns) =
      simulate-returned k dir ic_config dc_config mem base opens whole ok halts in
    (text, is_text, rw (main, parsed, found) returns)
