-- ===== src/Cycle/Step.antt =====
-- A cycle of `runCycles` (src/cycle.cpp), its loop, `runTillHalt` and the statistics.
use cos375_project.Base.{
  ℕ, ◌-◌, Bool, not, ◌&&◌, ◌||◌, ◌==◌, if◌then◌else◌, add64, ltb, Option, List, ◌∷◌,
}
use cos375_project.Utilities.{Status, success, halt, squashed, PipeState, SimulationStats}
use cos375_project.Loop.{run, run_until}
use cos375_project.Cycle.{CycleState, PipelineInfo, nop}
use cos375_project.Cycle.Hazard.{detect_hazards, stalls}
use cos375_project.Cycle.Forward.{forward_branch}
use cos375_project.Cycle.Stages.{wb_stage, mem_stage, ex_stage, resolve, id_stage}
use cos375_project.Cycle.Fetch.{if_stage}

-- The new pipeline registers, of which an exception in WB squashes the younger three.
unfoldable pub squash_younger : Bool → PipelineInfo → PipelineInfo
squash_younger wb_mem_exception p =
    if wb_mem_exception
    then record p { id_inst = nop squashed; ex_inst = nop squashed; mem_inst = nop squashed }
    else p

-- A round of the loop: the new state, and HALT when HALT reaches WB.
unfoldable pub cycle : CycleState → CycleState × Status
cycle s =
    let old = s.pipeline in
    let d_stall_active = ltb 0 s.d_stall_left in
    let i_left = s.i_stall_left - 1 in
    let i_stall_active = ltb 0 i_left in
    let wb = wb_stage d_stall_active old.mem_inst s.simulator s.dyn_retired (add64 s.pc 4) in
    let hazard = detect_hazards d_stall_active old.id_inst old.ex_inst old.mem_inst in
    let hazard_stall = stalls hazard in
    let mem =
      mem_stage d_stall_active old.mem_inst old.ex_inst old.wb_inst wb.simulator s.d_cache
        (s.d_stall_left - 1) in
    let new_ex =
      ex_stage d_stall_active hazard_stall old.id_inst old.ex_inst old.mem_inst old.wb_inst in
    let id_eval = forward_branch d_stall_active old.id_inst mem.new_mem wb.new_wb old.wb_inst in
    let redirect =
      resolve s.squash_next_if (not hazard_stall && not d_stall_active) wb.wb_mem_exception
        old.id_inst id_eval wb.next_pc in
    let id =
      id_stage (d_stall_active || hazard_stall) s.squash_next_if wb.wb_mem_exception i_stall_active
        old.id_inst old.if_inst mem.simulator redirect i_left in
    let fetch =
      if_stage id.simulator s.i_cache id.i_stall_left wb.wb_mem_exception id.redirect d_stall_active
        hazard_stall hazard.branch_data_stall i_stall_active s.just_finished_i_stall s.pc
        old.if_inst id.new_id in
    (
      record s {
        simulator = id.simulator;
        i_cache = fetch.i_cache;
        d_cache = mem.d_cache;
        cycle_count = add64 s.cycle_count 1;
        dyn_retired = wb.dyn_retired;
        pc = fetch.pc;
        load_use_stall_count =
            if hazard.load_use_event
            then add64 s.load_use_stall_count 1
            else s.load_use_stall_count;
        squash_next_if = fetch.squash_next_if;
        i_stall_left = fetch.i_stall_left;
        d_stall_left = mem.d_stall_left;
        just_finished_i_stall = fetch.just_finished_i_stall;
        pipeline = squash_younger wb.wb_mem_exception (record {
          if_inst = fetch.new_if;
          id_inst = id.new_id;
          ex_inst = new_ex;
          mem_inst = mem.new_mem;
          wb_inst = wb.new_wb;
        });
      },
      (if wb.new_wb.is_halt then halt else success),
    )

-- What `runCycles` dumps when it returns.
unfoldable pub pipe_state : CycleState → PipeState
pipe_state s = record {
  cycle = if s.cycle_count == 0 then 0 else s.cycle_count - 1;
  if_status = s.pipeline.if_inst.status;
  if_pc = s.pipeline.if_inst.pc;
  id_status = s.pipeline.id_inst.status;
  id_instr = s.pipeline.id_inst.instruction;
  ex_status = s.pipeline.ex_inst.status;
  ex_instr = s.pipeline.ex_inst.instruction;
  mem_status = s.pipeline.mem_inst.status;
  mem_instr = s.pipeline.mem_inst.instruction;
  wb_status = s.pipeline.wb_inst.status;
  wb_instr = s.pipeline.wb_inst.instruction;
}

-- The file of dumps grows beside the state.
pub record Session : Type 0 where
  pub state : CycleState
  pub dumps : List PipeState

-- `runCycles` for a number of cycles that is not 0; the latest dump stands first.
unfoldable pub run_cycles : ℕ → Session → Session × Status
unfolding pipe_state
run_cycles cycles session =
    let (s, status) = run cycle cycles session.state in
    (record { state = s; dumps = pipe_state s ∷ session.dumps }, status)

-- `runCycles(0)`, on fuel.
unfoldable pub run_unbounded : ℕ → CycleState → Option (CycleState × Status)
run_unbounded fuel s = run_until cycle fuel s

-- A status other than HALT does not end `runTillHalt`; `runCycles` returns SUCCESS or HALT only.
unfoldable pub run_till_halt : ℕ → Session → Option (Session × Status)
run_till_halt fuel session = run_until (run_cycles 1) fuel session

-- The statistics of `finalizeSimulator`.
unfoldable pub finalize_stats : CycleState → SimulationStats
finalize_stats s = record {
  dynamic_instructions = s.dyn_retired;
  total_cycles = s.cycle_count;
  ic_hits = s.i_cache.hits;
  ic_misses = s.i_cache.misses;
  dc_hits = s.d_cache.hits;
  dc_misses = s.d_cache.misses;
  load_use_stalls = s.load_use_stall_count;
}
