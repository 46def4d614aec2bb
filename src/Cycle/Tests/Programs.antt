-- ===== src/Cycle/Tests/Programs.antt =====
-- The programs and the reset machine that the tests of the pipeline start from.
use cos375_project.Base.{ℕ, ◌/◌, ◌%◌, false, List, [], ◌∷◌}
use cos375_project.Utilities.{extract_bits, sext32, sext64}
use cos375_project.MemoryStore.{
  MemoryStore, new_memory, get_bytes, set_bytes, valid_size, get_mem_value, set_mem_value,
  load_bytes, load_from_file,
}
use cos375_project.Cache.{
  CacheConfig, log2, new_cache, hit_loop, invalid_loop, lru_loop, victim, index_of, tag_of, access,
}
use cos375_project.Simulator.{new_simulator}
use cos375_project.Simulator.Decode.{
  sim_fetch, decode_fields, legal_int, legal_intw, legal_load, legal_intimm, legal_intimmw,
  legal_store, legal_branch, decode_op, sim_decode, sim_operand_collection,
}
use cos375_project.Simulator.NextPc.{branch_imm, jal_imm, branch_taken, sim_next_pc_resolution}
use cos375_project.Simulator.ArithLogic.{mask_shift, arith_of, sim_arith_logic}
use cos375_project.Simulator.MemAccess.{
  store_imm, sim_addr_gen, access_size, extends_sign, loaded, stored, sim_mem_access, sim_commit,
}
use cos375_project.Simulator.Stages.{sim_if, sim_id, sim_ex, sim_mem, sim_wb, sim_instruction}
use cos375_project.Loop.{run, run_until}
use cos375_project.Cycle.{CycleState, init_simulator}
use cos375_project.Cycle.Hazard.{
  is_branch_like, is_load, depends_on, load_use_hazard, waits_for_ex, waits_for_mem, branch_hazard,
  detect_hazards, stalls,
}
use cos375_project.Cycle.Forward.{
  forwards, result_of, forward_from, shadows, forward_ex, forward_branch, forward_store,
}
use cos375_project.Cycle.Stages.{
  retire, wb_stage, time_access, enter_mem, mem_stage, ex_stage, is_jump, resolve, illegal_detected,
  decoded, id_stage,
}
use cos375_project.Cycle.Fetch.{
  fetch_at, fetch_illegal, fetch_next, fetch_in_d_stall, fetch_in_hazard, if_stage,
}
use cos375_project.Cycle.Step.{cycle, squash_younger}

unfoldable pub machine : Unit {0}
unfolding extract_bits sext32 sext64 new_memory get_bytes set_bytes valid_size get_mem_value
    set_mem_value load_bytes load_from_file log2 new_cache hit_loop invalid_loop lru_loop victim
    index_of tag_of access new_simulator sim_fetch decode_fields legal_int legal_intw legal_load
    legal_intimm legal_intimmw legal_store legal_branch decode_op sim_decode sim_operand_collection
    branch_imm jal_imm branch_taken sim_next_pc_resolution mask_shift arith_of sim_arith_logic
    store_imm sim_addr_gen access_size extends_sign loaded stored sim_mem_access sim_commit sim_if
    sim_id sim_ex sim_mem sim_wb sim_instruction run run_until
machine = tt

-- The bytes of a program, the words in order.
abbrev bytes : List ℕ → List ℕ
bytes [] = []
bytes (w ∷ ws) = (w % 256) ∷ (w / 256 % 256) ∷ (w / 65536 % 256) ∷ (w / 16777216) ∷ bytes ws

abbrev pub image : List ℕ → MemoryStore
image words = (load_from_file (new_memory 0 64) (bytes words)).0

abbrev pub small : CacheConfig
small = record { cache_size = 64; block_size = 16; ways = 2; miss_latency = 3 }

unfoldable pub pipeline : Unit {0}
unfolding machine init_simulator is_branch_like is_load depends_on load_use_hazard waits_for_ex
    waits_for_mem branch_hazard detect_hazards stalls forwards result_of forward_from shadows
    forward_ex forward_branch forward_store retire wb_stage time_access enter_mem mem_stage ex_stage
    is_jump resolve illegal_detected decoded id_stage fetch_at fetch_illegal fetch_next
    fetch_in_d_stall fetch_in_hazard if_stage squash_younger cycle
pipeline = tt

-- addi x5, x0, 1; addi x5, x5, 1; sw x5, 48(x0); HALT
abbrev pub overwrite : List ℕ
overwrite = 0x00100293 ∷ 0x00128293 ∷ 0x02502823 ∷ 0xfeedfeed ∷ []

-- lw x5, 16(x0); sw x5, 48(x0); HALT; and the word 1 at 16
abbrev pub load_to_store : List ℕ
load_to_store = 0x01002283 ∷ 0x02502823 ∷ 0xfeedfeed ∷ 0 ∷ 1 ∷ []

abbrev pub reset : List ℕ → CycleState
reset program = init_simulator false small small (image program)

-- HALT alone.
abbrev pub stop : List ℕ
stop = 0xfeedfeed ∷ []
