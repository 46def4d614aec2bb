-- ===== src/Cycle/Fetch.antt =====
-- The IF stage of `runCycles` (src/cycle.cpp), and the program counter.
use cos375_project.Base.{ℕ, Bool, true, false, not, ◌&&◌, if◌then◌else◌, add64}
use cos375_project.Utilities.{normal, speculative, idle}
use cos375_project.Cache.{Cache, cache_read, access}
use cos375_project.Simulator.{Instruction, Simulator}
use cos375_project.Simulator.Stages.{sim_if}
use cos375_project.Cycle.{nop}
use cos375_project.Cycle.Stages.{Redirect, is_jump, set_status}

pub record IfResult : Type 0 where
  pub new_if : Instruction
  pub i_cache : Cache
  pub pc : ℕ
  pub i_stall_left : ℕ
  pub just_finished_i_stall : Bool
  pub squash_next_if : Bool

-- `newIF` where no instruction arrives: a NOP with the address that is waited for.
abbrev pub waiting : ℕ → Instruction
waiting pc = record (nop normal) { pc = pc }

module _ (sim : Simulator) (i_cache : Cache) (i_stall_left : ℕ) where
  -- A result that touches neither the cache nor the stall.
  abbrev quiet : Instruction → ℕ → Bool → IfResult
  quiet new_if pc just_finished = record {
    new_if = new_if;
    i_cache = i_cache;
    pc = pc;
    i_stall_left = i_stall_left;
    just_finished_i_stall = just_finished;
    squash_next_if = false;
  }

  -- A fetch at a redirected address: the handler, or the target of a branch. `missed` is what IF
  -- shows while the block is loaded, and `stall` the stall that holds on a hit.
  unfoldable pub fetch_at : ℕ → Instruction → ℕ → IfResult
  fetch_at next_pc missed stall =
      let (i_cache', i_hit) = access i_cache next_pc cache_read in
      if i_hit
      then record {
        new_if = sim_if sim next_pc;
        i_cache = i_cache';
        pc = add64 next_pc 4;
        i_stall_left = stall;
        just_finished_i_stall = false;
        squash_next_if = false;
      }
      else record {
        new_if = missed;
        i_cache = i_cache';
        pc = next_pc;
        i_stall_left = i_cache'.config.miss_latency;
        just_finished_i_stall = false;
        squash_next_if = false;
      }

  -- The wrong path is shown, and squashed in the next cycle.
  unfoldable pub fetch_illegal : ℕ → ℕ → IfResult
  fetch_illegal pc next_pc = record {
    new_if = waiting pc;
    i_cache = (access i_cache pc cache_read).0;
    pc = next_pc;
    i_stall_left = i_stall_left;
    just_finished_i_stall = false;
    squash_next_if = true;
  }

  -- The fetch on the straight line. The source tests for an illegal instruction here once more; the
  -- cases above it have taken that one.
  unfoldable pub fetch_next : ℕ → Instruction → IfResult
  fetch_next pc new_id =
      let (i_cache', i_hit) = access i_cache pc cache_read in
      let fetched = sim_if sim pc in
      if i_hit
      then record {
        new_if =
            if not new_id.is_nop && is_jump new_id then set_status speculative fetched else fetched;
        i_cache = i_cache';
        pc = add64 pc 4;
        i_stall_left = i_stall_left;
        just_finished_i_stall = false;
        squash_next_if = false;
      }
      else record {
        new_if = waiting pc;
        i_cache = i_cache';
        pc = pc;
        i_stall_left = i_cache'.config.miss_latency;
        just_finished_i_stall = false;
        squash_next_if = false;
      }

  -- IF while the D-cache is waited for.
  unfoldable pub fetch_in_d_stall : Bool → Instruction → ℕ → IfResult
  fetch_in_d_stall i_stall_active old_if pc =
      if i_stall_active
      then quiet (waiting pc) pc false
      else (if old_if.is_nop
          then quiet (sim_if sim pc) (add64 pc 4) false
          else quiet old_if pc false)

  -- IF while ID waits for an operand.
  unfoldable pub fetch_in_hazard : Bool → Bool → Instruction → ℕ → IfResult
  fetch_in_hazard i_stall_active branch_data_stall old_if pc =
      if i_stall_active
      then quiet (waiting pc) pc false
      else quiet (if branch_data_stall then set_status speculative old_if else old_if) pc false

  unfoldable pub if_stage :
      Bool → Redirect → Bool → Bool → Bool → Bool → Bool → ℕ → Instruction → Instruction → IfResult
  if_stage wb_mem_exception redirect d_stall_active hazard_stall branch_data_stall i_stall_active
        just_finished pc old_if new_id =
      if wb_mem_exception
      then fetch_at redirect.next_pc (waiting redirect.next_pc) 0
      else (if redirect.id_illegal_exception
          then fetch_illegal pc redirect.next_pc
          else (if redirect.branch_taken
              then fetch_at redirect.next_pc (record (nop idle) { pc = redirect.next_pc })
                  i_stall_left
              else (if d_stall_active
                  then fetch_in_d_stall i_stall_active old_if pc
                  else (if hazard_stall
                      then fetch_in_hazard i_stall_active branch_data_stall old_if pc
                      else (if i_stall_active
                          then quiet (waiting pc) pc true
                          else (if just_finished
                              then quiet (sim_if sim pc) (add64 pc 4) false
                              else fetch_next pc new_id))))))
