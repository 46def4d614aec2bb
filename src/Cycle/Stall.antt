-- ===== src/Cycle/Stall.antt =====
-- `runCycles` (src/cycle.cpp) while the D-cache is waited for.
use cos375_project.Base.{
  ℕ, zero, suc, ◌+◌, ◌-◌, ◌≤◌, ◌≡◌, refl, ◌∙◌, arith, ◌⊎◌, inl, inr, true, ltb, lt→ltb,
}
use cos375_project.Utilities.{success, bubble}
use cos375_project.Loop.{run}
use cos375_project.Loop.Laws.{run-go}
use cos375_project.Cycle.{CycleState, nop}
use cos375_project.Cycle.Hazard.{detect_hazards, stalls}
use cos375_project.Cycle.Stages.{wb_stage, mem_stage, ex_stage, id_stage}
use cos375_project.Cycle.Step.{cycle, squash_younger}

-- What a stalled cycle keeps: the machine, the D-cache, the statistics of the program, and the
-- instructions in ID, EX and MEM.
pub record IsFrozen (s s' : CycleState) : Type 0 where
  pub simulator : s'.simulator ≡ s.simulator
  pub d_cache : s'.d_cache ≡ s.d_cache
  pub dyn_retired : s'.dyn_retired ≡ s.dyn_retired
  pub load_use_stall_count : s'.load_use_stall_count ≡ s.load_use_stall_count
  pub id_inst : s'.pipeline.id_inst ≡ s.pipeline.id_inst
  pub ex_inst : s'.pipeline.ex_inst ≡ s.pipeline.ex_inst
  pub mem_inst : s'.pipeline.mem_inst ≡ s.pipeline.mem_inst

-- A cycle in a stall: WB gets a bubble, and the stall is a cycle shorter.
pub record IsStalled (s s' : CycleState) : Type 0 where
  pub frozen : IsFrozen s s'
  pub wb_inst : s'.pipeline.wb_inst ≡ nop bubble
  pub d_stall_left : s'.d_stall_left ≡ s.d_stall_left - 1

cycle-IsStalled :
    (s : CycleState)
    → ltb 0 s.d_stall_left ≡ true
    → IsStalled s (cycle s).0 × ((cycle s).1 ≡ success)
unfolding cycle wb_stage mem_stage ex_stage id_stage detect_hazards squash_younger stalls
cycle-IsStalled s h = (
  record {
    frozen = record {
      simulator = rw h refl;
      d_cache = rw h refl;
      dyn_retired = rw h refl;
      load_use_stall_count = rw h refl;
      id_inst = rw h refl;
      ex_inst = rw h refl;
      mem_inst = rw h refl;
    };
    wb_inst = rw h refl;
    d_stall_left = rw h refl;
  },
  rw h refl,
)

IsFrozen-trans : (a b c : CycleState) → IsFrozen a b → IsFrozen b c → IsFrozen a c
IsFrozen-trans a b c first second = record {
  simulator = second.simulator ∙ first.simulator;
  d_cache = second.d_cache ∙ first.d_cache;
  dyn_retired = second.dyn_retired ∙ first.dyn_retired;
  load_use_stall_count = second.load_use_stall_count ∙ first.load_use_stall_count;
  id_inst = second.id_inst ∙ first.id_inst;
  ex_inst = second.ex_inst ∙ first.ex_inst;
  mem_inst = second.mem_inst ∙ first.mem_inst;
}

IsFrozen-refl : (s : CycleState) → IsFrozen s s
IsFrozen-refl s = record {
  simulator = refl;
  d_cache = refl;
  dyn_retired = refl;
  load_use_stall_count = refl;
  id_inst = refl;
  ex_inst = refl;
  mem_inst = refl;
}

bubble_in_wb :
    (k : ℕ) (s : CycleState)
    → s.pipeline.wb_inst ≡ nop bubble
    → (k ≡ 0) ⊎ ((run cycle k s).0.pipeline.wb_inst ≡ nop bubble)
    → (run cycle k s).0.pipeline.wb_inst ≡ nop bubble
bubble_in_wb zero s now later = unfold run in now
bubble_in_wb (suc k) s now (inl e) = absurd (omega arith)
bubble_in_wb (suc k) s now (inr later) = later

-- While d_stall_left cycles of a D-cache miss are left, a run of k of them succeeds, changes
-- neither the machine, the D-cache, the retired instructions nor the load-use stalls, holds ID, EX
-- and MEM, leaves d_stall_left - k cycles, and for k above 0 leaves a bubble in WB.
pub run_in_d_stall :
    (k : ℕ) (s : CycleState)
    → k ≤ s.d_stall_left
    → let r = run cycle k s in
      (r.1 ≡ success)
      × IsFrozen s r.0
      × (r.0.d_stall_left + k ≡ s.d_stall_left)
      × ((k ≡ 0) ⊎ (r.0.pipeline.wb_inst ≡ nop bubble))
run_in_d_stall zero s le = unfold run in (refl, IsFrozen-refl s, omega arith, inl refl)
run_in_d_stall (suc k) s le =
    let (stalled, goes) = cycle-IsStalled s (lt→ltb 0 s.d_stall_left (omega arith)) in
    let one = stalled.d_stall_left in
    let (on, frozen, left, wb) = run_in_d_stall k (cycle s).0 (omega arith) in
    rw (run-go cycle k s goes) (
      on,
      IsFrozen-trans s (cycle s).0 _ stalled.frozen frozen,
      omega arith,
      inr (bubble_in_wb k (cycle s).0 stalled.wb_inst wb),
    )
