-- ===== src/Main/Tests.antt =====
-- Runs of the main programs on a directory with HALT as its program.
use cos375_project.Base.{
  ℕ, ◌*◌, ◌≡◌, ◌≢◌, ◌++◌, refl, arith, true, false, [], ◌∷◌, Option, none, some, if◌then◌else◌,
}
use cos375_project.Text.{Text, codes, same_text}
use cos375_project.Text.Stream.{is_space}
use cos375_project.Utilities.{Status, success, halt, PipeState, normal, bubble}
use cos375_project.MemoryStore.{MemoryStore}
use cos375_project.MemoryStore.Prepare.{memory_of_file}
use cos375_project.MemoryStore.{
  new_memory, get_bytes, set_bytes, valid_size, get_mem_value, get_or_set_value, set_mem_value,
  load_bytes, load_from_file,
}
use cos375_project.MemoryStore.Prepare.{prepare_memory, asserted, load_file}
use cos375_project.Utilities.{extract_bits}
use cos375_project.Cache.Trace
use cos375_project.Cache.{
  CacheConfig, log2, new_cache, hit_loop, invalid_loop, lru_loop, victim, index_of, tag_of, access,
}
use cos375_project.Simulator.{new_simulator}
use cos375_project.Simulator.Decode.{
  sim_fetch, decode_fields, legal_int, legal_intw, legal_load, legal_intimm, legal_intimmw,
  legal_store, legal_branch, decode_op, sim_decode, sim_operand_collection,
}
use cos375_project.Simulator.NextPc.{branch_imm, jal_imm, branch_taken, sim_next_pc_resolution}
use cos375_project.Simulator.ArithLogic.{mask_shift, arith_of, sim_arith_logic}
use cos375_project.Simulator.MemAccess.{
  store_imm, sim_addr_gen, access_size, extends_sign, loaded, stored, sim_mem_access, sim_commit,
}
use cos375_project.Simulator.Stages.{sim_if, sim_id, sim_ex, sim_mem, sim_wb, sim_instruction}
use cos375_project.Loop.{run, run_until}
use cos375_project.Cycle.{CycleState, init_simulator}
use cos375_project.Cycle.Hazard.{
  is_branch_like, is_load, depends_on, load_use_hazard, waits_for_ex, waits_for_mem, branch_hazard,
  detect_hazards, stalls,
}
use cos375_project.Cycle.Forward.{
  forwards, result_of, forward_from, shadows, forward_ex, forward_branch, forward_store,
}
use cos375_project.Cycle.Stages.{
  retire, wb_stage, time_access, enter_mem, mem_stage, ex_stage, is_jump, resolve, illegal_detected,
  decoded, id_stage,
}
use cos375_project.Cycle.Fetch.{
  fetch_at, fetch_illegal, fetch_next, fetch_in_d_stall, fetch_in_hazard, if_stage,
}
use cos375_project.Cycle.Step.{cycle, squash_younger}
use cos375_project.Loop.Laws.{run-one}
use cos375_project.Main.SimCycle
use cos375_project.Main.SimCycle.PipeLines.{pipe_lines}
use cos375_project.Main.SimCycle.Ends.{files_of, main-returned}
use cos375_project.Main.Outcomes.{IsMemoryText}
use cos375_project.RegisterInfo.{reg_of, register_text}
use cos375_project.Utilities.Dumps.{stats_text, get_base_filename}
use cos375_project.Utilities.{sext32, sext64}
use cos375_project.Simulator.Decode.{fetched}
use cos375_project.Funct
use cos375_project.Funct.{Machine}
use cos375_project.Main.SimFunct
use cos375_project.Main.SimFunct.Ends.{main-returns_status}
use cos375_project.Main.{Directory, returned, memory_size, dump_all}
use cos375_project.Main.Config.{parse_args}
use cos375_project.Main.ReadConfig.{IsComment, IsConfig, config_lines, parse_args-config_lines}
use cos375_project.Main.PipeStates.{pipe_text, dump_all-pipe_text}

abbrev small : CacheConfig
small = record { cache_size = 64; block_size = 16; ways = 2; miss_latency = 3 }

-- Every line of the configuration has the same comment.
abbrev comment : ℕ → Text
comment i = codes " bytes"

abbrev config : Text
config = config_lines small comment 1 (config_lines small comment 5 [])

small-IsConfig : IsConfig small
small-IsConfig = record {
  cache_size = omega arith;
  block_size = omega arith;
  ways = omega arith;
  miss_latency = omega arith;
}

comment-IsComment : (i : ℕ) → IsComment (comment i)
unfolding is_space
comment-IsComment i = record {
  spaced = refl;
  one_line = (
    (λ e. omega arith),
    (
      (λ e. omega arith),
      ((λ e. omega arith), ((λ e. omega arith), ((λ e. omega arith), ((λ e. omega arith), tt)))),
    ),
  );
}

-- The files: a program of the four bytes of HALT, and the configuration under any other name.
abbrev files : Text → Option Text
files name =
    if same_text name (codes "halt.bin")
    then some (0xed ∷ 0xfe ∷ 0xed ∷ 0xfe ∷ [])
    else if same_text name (codes "init_mem_image")
    then none
    else some config

abbrev dir : Directory
dir = record { read = files; writable = λ name. true }

config_found : files (codes "cache.txt") ≡ some config
unfolding same_text
config_found = refl

args_parsed :
    parse_args (codes "sim" ∷ codes "halt.bin" ∷ codes "cache.txt" ∷ []) files
    ≡ some (codes "halt.bin", small, small)
args_parsed =
    parse_args-config_lines (codes "sim") (codes "halt.bin") (codes "cache.txt") files small small
      comment small-IsConfig small-IsConfig comment-IsComment config_found

parse_args-config_lines_example :
    parse_args (codes "sim" ∷ codes "halt.bin" ∷ codes "cache.txt" ∷ []) files
    ≡ some (codes "halt.bin", small, small)
parse_args-config_lines_example =
    parse_args-config_lines (codes "sim") (codes "halt.bin") (codes "cache.txt") files small small
      comment small-IsConfig small-IsConfig comment-IsComment config_found

abbrev idle_cycle : ℕ → PipeState
idle_cycle n = record {
  cycle = n;
  if_status = normal;
  if_pc = 4 * n;
  id_status = bubble;
  id_instr = 0x13;
  ex_status = bubble;
  ex_instr = 0x13;
  mem_status = bubble;
  mem_instr = 0x13;
  wb_status = bubble;
  wb_instr = 0x13;
}

dump_all-pipe_text_example :
    dump_all
      (idle_cycle 1 ∷ idle_cycle 0 ∷ [])
      (record { file_init = false; content = some (codes "old") })
    ≡ record { file_init = true; content = some (pipe_text (idle_cycle 1 ∷ idle_cycle 0 ∷ [])) }
dump_all-pipe_text_example = dump_all-pipe_text (idle_cycle 1) (idle_cycle 0 ∷ []) (codes "old")

-- The memory with the program.
abbrev mem : MemoryStore
mem = (load_from_file (new_memory 0 memory_size) (0xed ∷ 0xfe ∷ 0xed ∷ 0xfe ∷ [])).0

mem_found :
    memory_of_file 0 memory_size (files (codes "init_mem_image")) (files (codes "halt.bin"))
    ≡ some mem
unfolding memory_of_file asserted prepare_memory load_file same_text
mem_found = refl

-- Every file opens.
dir_opens : (name : Text) → dir.writable name ≡ true
dir_opens name = refl

step_halts : (Funct.step (Funct.init_simulator mem)).1 ≡ halt
unfolding Funct.step Funct.init_simulator sim_instruction sim_decode decode_fields extract_bits
    sim_fetch fetched get_mem_value get_or_set_value get_bytes set_bytes set_mem_value load_bytes
    load_from_file new_memory valid_size new_simulator
step_halts = refl

-- One instruction is HALT.
funct_halts : (run Funct.step 1 (Funct.init_simulator mem)).1 ≡ halt
funct_halts = rw (run-one Funct.step (Funct.init_simulator mem)) step_halts

funct_stops : (run Funct.step 1 (Funct.init_simulator mem)).1 ≢ success
funct_stops e = let halts = funct_halts in cc

main-returns_status_example :
    let r : Machine × Status = run Funct.step 1 (Funct.init_simulator mem) in
    let base : Text = get_base_filename (codes "halt.bin") ++ codes "_funct" in
    (text : Text) × IsMemoryText dir r.0.simulator.memory text
    × (SimFunct.main 1 (codes "sim" ∷ codes "halt.bin" ∷ []) dir
        ≡ some (
            returned r.1 (
              (base ++ codes "_reg_state.out", register_text (reg_of r.0.simulator.registers))
              ∷ (base ++ codes "_mem_state.out", text)
              ∷ (base ++ codes "_sim_stats.out", stats_text (Funct.finalize_stats r.0))
              ∷ [])))
main-returns_status_example =
    main-returns_status 1 (codes "sim") (codes "halt.bin") [] dir mem dir_opens mem_found
      funct_stops

machine : Unit {0}
unfolding extract_bits sext32 sext64 new_memory get_bytes set_bytes valid_size get_mem_value
    set_mem_value load_bytes load_from_file log2 new_cache hit_loop invalid_loop lru_loop victim
    index_of tag_of access new_simulator sim_fetch decode_fields legal_int legal_intw legal_load
    legal_intimm legal_intimmw legal_store legal_branch decode_op sim_decode sim_operand_collection
    branch_imm jal_imm branch_taken sim_next_pc_resolution mask_shift arith_of sim_arith_logic
    store_imm sim_addr_gen access_size extends_sign loaded stored sim_mem_access sim_commit sim_if
    sim_id sim_ex sim_mem sim_wb sim_instruction run run_until
machine = tt

pipeline : Unit {0}
unfolding machine init_simulator is_branch_like is_load depends_on load_use_hazard waits_for_ex
    waits_for_mem branch_hazard detect_hazards stalls forwards result_of forward_from shadows
    forward_ex forward_branch forward_store retire wb_stage time_access enter_mem mem_stage ex_stage
    is_jump resolve illegal_detected decoded id_stage fetch_at fetch_illegal fetch_next
    fetch_in_d_stall fetch_in_hazard if_stage squash_younger cycle
pipeline = tt

-- HALT is in WB in the eighth cycle.
abbrev first : CycleState
first = init_simulator false small small mem

cycles_go : (run cycle 7 first).1 ≡ success
unfolding pipeline
cycles_go = refl

cycles_halt : (run cycle 8 first).1 ≡ halt
unfolding pipeline
cycles_halt = refl

usable : Trace.IsConfig small
usable = record { some_ways = omega arith; some_sets = omega arith; word = omega arith }

main-returned_example :
    let end : CycleState = (run cycle 8 first).0 in
    let base : Text = get_base_filename (codes "halt.bin") ++ codes "_cycle" in
    (text : Text) × IsMemoryText dir end.simulator.memory text
    × (SimCycle.main 8 (codes "sim" ∷ codes "halt.bin" ∷ codes "cache.txt" ∷ []) dir
        ≡ some (returned halt (files_of base (pipe_lines 8 first) end text)))
main-returned_example =
    main-returned 7 (codes "sim") (codes "halt.bin") (codes "cache.txt") dir small small mem
      dir_opens usable usable args_parsed mem_found cycles_go cycles_halt
