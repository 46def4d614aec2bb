-- ===== src/Cycle/Nops.antt =====
-- The NOPs in the pipeline registers of `runCycles` (src/cycle.cpp), on which forwarding relies.
mod Same
mod Back
mod Fresh
use cos375_project.Base.{
  if-keeps, if-cases, ℕ, ◌+◌, ◌-◌, ◌≡◌, ◌≢◌, refl, sym, ◌∙◌, ap, arith, Bool, true, false, not,
  ◌&&◌, ◌||◌, ◌==◌, ◌!=◌, if◌then◌else◌, Bool-cases, ◌⊎◌, inl, inr, ltb,
}
use cos375_project.Utilities.{speculative}
use cos375_project.MemoryStore.{MemoryStore, Ret, zero_ret, einval}
use cos375_project.Cache.{Cache, CacheConfig, access, cache_read}
use cos375_project.Simulator.{Instruction, Simulator, blank}
use cos375_project.Simulator.Decode.{
  fetched, sim_fetch, sim_decode, decode_fields, decode_op, halt_word, nop_word,
  sim_operand_collection,
}
use cos375_project.Simulator.NextPc.{sim_next_pc_resolution}
use cos375_project.Simulator.ArithLogic.{mask_shift, sim_arith_logic}
use cos375_project.Simulator.MemAccess.{sim_addr_gen, loaded, stored, sim_mem_access}
use cos375_project.Simulator.Stages.{
  count_instruction, finish_id, sim_if, sim_id, sim_ex, sim_mem, sim_wb,
}
use cos375_project.Loop.{run}
use cos375_project.Loop.Laws.{run-keeps}
use cos375_project.Cycle.{CycleState, PipelineInfo, nop, init_simulator}
use cos375_project.Cycle.Hazard.{Hazard}
use cos375_project.Cycle.Forward.{forward_ex, forward_from, forward_store}
use cos375_project.Cycle.Stages.{
  WbResult, MemResult, Redirect, IdResult, set_status, is_squashed, is_jump, retire, wb_stage,
  time_access, enter_mem, mem_stage, ex_stage, decoded, id_stage,
}
use cos375_project.Cycle.Fetch.{
  IfResult, fetch_at, fetch_illegal, fetch_next, fetch_in_d_stall, fetch_in_hazard, if_stage,
}
use cos375_project.Cycle.Step.{cycle, squash_younger}
use cos375_project.Cycle.Youngest.{IsQuiet}
use cos375_project.Cycle.Nops.Back.{
  IsQuiet-set_status, retire-IsQuiet, nop-IsQuiet, wb_stage-IsQuiet, forward_store-IsQuiet,
  time_access-IsQuiet, sim_mem-IsQuiet, enter_mem-IsQuiet, mem_stage-IsQuiet, forward_ex-IsSame,
  ex_stage-IsQuiet, decode_op_nop, sim_decode-IsQuiet, count_instruction-IsSame, finish_id-IsSame,
  sim_id-IsQuiet, decoded-IsQuiet, id_stage-IsQuiet,
}
use cos375_project.Cycle.Nops.Fresh.{
  IsFresh-fetched, sim_if_writes, IsFresh, fetch_at-IsFresh, fetch_next-IsFresh,
  fetch_in_d_stall-IsFresh, fetch_in_hazard-IsFresh, if_stage-IsFresh,
}

-- What forwarding relies on in every pipeline register.
pub record IsQuietPipeline (p : PipelineInfo) : Type 0 where
  pub if_inst : p.if_inst.writes_rd ≡ false
  pub id_inst : IsQuiet p.id_inst
  pub ex_inst : IsQuiet p.ex_inst
  pub mem_inst : IsQuiet p.mem_inst
  pub wb_inst : IsQuiet p.wb_inst

squash_younger-IsQuiet :
    (exception : Bool) (p : PipelineInfo)
    → IsQuietPipeline p
    → IsQuietPipeline (squash_younger exception p)
unfolding squash_younger
squash_younger-IsQuiet exception p quiet =
    if-keeps IsQuietPipeline exception _ p
      (record {
        if_inst = quiet.if_inst;
        id_inst = (inr refl);
        ex_inst = (inr refl);
        mem_inst = (inr refl);
        wb_inst = quiet.wb_inst;
      })
      quiet

init_simulator-IsQuiet :
    (just_finished : Bool) (i_config d_config : CacheConfig) (mem : MemoryStore)
    → IsQuietPipeline (init_simulator just_finished i_config d_config mem).pipeline
unfolding init_simulator
init_simulator-IsQuiet just_finished i_config d_config mem = record {
  if_inst = refl;
  id_inst = inr refl;
  ex_inst = inr refl;
  mem_inst = inr refl;
  wb_inst = inr refl;
}

cycle-IsQuiet : (s : CycleState) → IsQuietPipeline s.pipeline → IsQuietPipeline (cycle s).0.pipeline
unfolding cycle
cycle-IsQuiet s quiet = squash_younger-IsQuiet _ _ (record {
  if_inst = if_stage-IsFresh _ _ _ _ _ _ _ _ _ _ _ _ _ quiet.if_inst;
  id_inst = id_stage-IsQuiet _ _ _ _ _ _ _ _ _ quiet.id_inst quiet.if_inst;
  ex_inst = ex_stage-IsQuiet _ _ _ _ _ _ quiet.id_inst quiet.ex_inst;
  mem_inst = mem_stage-IsQuiet _ _ _ _ _ _ _ quiet.mem_inst quiet.ex_inst;
  wb_inst = wb_stage-IsQuiet _ _ _ _ _ quiet.mem_inst;
})

-- After any number of cycles from the reset, an instruction in ID, EX, MEM or WB that is a NOP
-- writes no register, and the instruction in IF has no write signal yet.
pub run-IsQuiet :
    (n : ℕ) (just_finished : Bool) (i_config d_config : CacheConfig) (mem : MemoryStore)
    → IsQuietPipeline (run cycle n (init_simulator just_finished i_config d_config mem)).0.pipeline
run-IsQuiet n just_finished i_config d_config mem =
    run-keeps cycle (λ s. IsQuietPipeline s.pipeline) cycle-IsQuiet n _
      (init_simulator-IsQuiet just_finished i_config d_config mem)
