-- ===== src/Cycle/Branches.antt =====
-- A jump that ID resolves in `runCycles` (src/cycle.cpp): the instruction behind it does not enter ID,
-- and IF goes to the target.
use cos375_project.Base.{ℕ, ◌≡◌, refl, Bool, true, false, ◌!=◌, if-keeps, add64}
use cos375_project.Utilities.{squashed}
use cos375_project.MemoryStore.{Ret, zero_ret, einval, get_mem_value, word_size}
use cos375_project.Cache.{Cache, access, cache_read}
use cos375_project.Simulator.{Instruction, Simulator, blank}
use cos375_project.Simulator.Decode.{fetched, sim_fetch}
use cos375_project.Simulator.NextPc.{sim_next_pc_resolution}
use cos375_project.Simulator.Stages.{sim_if}
use cos375_project.Cycle.{CycleState, nop}
use cos375_project.Cycle.Hazard.{detect_hazards, stalls}
use cos375_project.Cycle.Forward.{forward_branch}
use cos375_project.Cycle.Stages.{wb_stage, mem_stage, is_jump, Redirect, resolve, id_stage}
use cos375_project.Cycle.Fetch.{IfResult, fetch_at, if_stage}
use cos375_project.Cycle.HaltStages.{wb_stage_sound}
use cos375_project.Cycle.Step.{cycle, squash_younger}

abbrev to_target : ℕ → Redirect
to_target target = record { id_illegal_exception = false; branch_taken = true; next_pc = target }

resolve_taken :
    (old_id id_eval : Instruction) (next_pc : ℕ)
    → old_id.is_nop ≡ false
    → old_id.is_legal ≡ true
    → is_jump id_eval ≡ true
    → ((sim_next_pc_resolution id_eval).next_pc != add64 id_eval.pc 4) ≡ true
    → resolve false true false old_id id_eval next_pc
      ≡ to_target (sim_next_pc_resolution id_eval).next_pc
unfolding resolve
resolve_taken old_id id_eval next_pc some_inst legal jump taken =
    rw (some_inst, legal, jump, taken) refl

id_stage_taken :
    (i_stall_active : Bool) (old_id old_if : Instruction) (sim : Simulator) (target left : ℕ)
    → id_stage false false false i_stall_active old_id old_if sim (to_target target) left ≡ record {
      new_id = nop squashed;
      simulator = sim;
      redirect = to_target target;
      i_stall_left = 0;
    }
unfolding id_stage
id_stage_taken i_stall_active old_id old_if sim target left = refl

fetched_pc : (inst : Instruction) (r : Ret × ℕ) → (fetched inst r).pc ≡ inst.pc
unfolding fetched
fetched_pc inst (zero_ret, value) = refl
fetched_pc inst (einval, value) = refl

sim_if_pc : (sim : Simulator) (pc : ℕ) → (sim_if sim pc).pc ≡ pc
unfolding sim_if sim_fetch
sim_if_pc sim pc = fetched_pc (record blank { pc = pc }) (get_mem_value sim.memory pc 0 word_size)

fetch_at_pc :
    (sim : Simulator) (c : Cache) (left target stall : ℕ) (missed : Instruction)
    → missed.pc ≡ target
    → (fetch_at sim c left target missed stall).new_if.pc ≡ target
unfolding fetch_at
fetch_at_pc sim c left target stall missed same =
    if-keeps (λ (r : IfResult). r.new_if.pc ≡ target) (access c target cache_read).1 _ _
      (sim_if_pc sim target) same

-- The instruction in ID with its operands forwarded, where the D-cache is not waited for.
abbrev pub jump_in_id : CycleState → Instruction
jump_in_id s =
    let p = s.pipeline in
    let wb = wb_stage false p.mem_inst s.simulator s.dyn_retired (add64 s.pc 4) in
    let mem = mem_stage false p.mem_inst p.ex_inst p.wb_inst wb.simulator s.d_cache 0 in
    forward_branch false p.id_inst mem.new_mem wb.new_wb p.wb_inst

abbrev pub target_of : CycleState → ℕ
target_of s = (sim_next_pc_resolution (jump_in_id s)).next_pc

-- ID holds a legal jump that leaves the straight line, and nothing holds it or squashes it.
pub record IsTaken (s : CycleState) : Type 0 where
  pub ready : s.d_stall_left ≡ 0
  pub no_hazard :
      stalls (detect_hazards false s.pipeline.id_inst s.pipeline.ex_inst s.pipeline.mem_inst)
      ≡ false
  pub not_deferred : s.squash_next_if ≡ false
  pub some_inst : s.pipeline.id_inst.is_nop ≡ false
  pub legal : s.pipeline.id_inst.is_legal ≡ true
  pub jump : is_jump (jump_in_id s) ≡ true
  pub older_is_legal : s.pipeline.mem_inst.is_legal ≡ true
  pub older_mem_exception : s.pipeline.mem_inst.mem_exception ≡ false
  pub taken : (target_of s != add64 (jump_in_id s).pc 4) ≡ true

-- Where the D-cache is not waited for, no hazard holds ID and no squash is due, and ID holds a
-- legal jump or branch whose target, from its forwarded operands, is not the next instruction,
-- behind a legal instruction without a memory exception in MEM, the cycle squashes what would enter
-- ID and IF shows the address of the target.
pub cycle_jumps :
    (s : CycleState)
    → IsTaken s
    → ((cycle s).0.pipeline.id_inst ≡ nop squashed)
      × ((cycle s).0.pipeline.if_inst.pc ≡ target_of s)
unfolding cycle squash_younger if_stage
cycle_jumps s h =
    let p = s.pipeline in
    let sound =
      wb_stage_sound p.mem_inst s.simulator s.dyn_retired (add64 s.pc 4) h.older_is_legal
        h.older_mem_exception in
    let goes =
      resolve_taken p.id_inst (jump_in_id s)
        (wb_stage false p.mem_inst s.simulator s.dyn_retired (add64 s.pc 4)).next_pc h.some_inst
        h.legal h.jump h.taken in
    (
      rw (h.ready, h.no_hazard, h.not_deferred, sound, goes, id_stage_taken) refl,
      rw (h.ready, h.no_hazard, h.not_deferred, sound, goes, id_stage_taken)
          (fetch_at_pc _ _ _ (target_of s) _ _ refl),
    )
