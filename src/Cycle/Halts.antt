-- ===== src/Cycle/Halts.antt =====
-- The end of `runTillHalt` (src/cycle.cpp) once HALT is in EX or MEM.
use cos375_project.Base.{
  ◌+◌, ◌≡◌, ◌⊎◌, inl, inr, refl, ◌∙◌, ap, arith, Option, none, some, if-keeps,
}
use cos375_project.Utilities.{Status, success, halt}
use cos375_project.Loop.{run}
use cos375_project.Loop.Laws.{run-go, run-stop, run-left, run-add, run-one, run_until-run}
use cos375_project.Cycle.{CycleState}
use cos375_project.Cycle.Stall.{run_in_d_stall}
use cos375_project.Cycle.Step.{cycle, run_unbounded, Session, run_till_halt}
use cos375_project.Cycle.Runs.{without_dumps, run_till_halt-without_dumps}
use cos375_project.Cycle.HaltStages.{IsHalting, IsAhead, cycle-halt, cycle-IsHalting}

-- The cycles that are left of a D-cache miss, and one more.
run-halt :
    (s : CycleState) → IsHalting s.pipeline.mem_inst → (run cycle (s.d_stall_left + 1) s).1 ≡ halt
run-halt s h =
    let waited = run cycle s.d_stall_left s in
    let (goes, frozen, left, wb) = run_in_d_stall s.d_stall_left s (omega arith) in
    let still : IsHalting waited.0.pipeline.mem_inst = rw frozen.mem_inst h in
    rw (run-add cycle s.d_stall_left 1 s goes, run-one cycle waited.0)
      (cycle-halt waited.0 (omega arith) still)

cycle_status : (s : CycleState) → ((cycle s).1 ≡ halt) ⊎ ((cycle s).1 ≡ success)
unfolding cycle
cycle_status s = if-keeps (λ (t : Status). (t ≡ halt) ⊎ (t ≡ success)) _ _ _ (inl refl) (inr refl)

-- Two cycles bring HALT from EX to WB, if another HALT has not come there before.
two_cycles : (s : CycleState) → s.d_stall_left ≡ 0 → IsAhead s.pipeline → (run cycle 2 s).1 ≡ halt
two_cycles s ready h =
    let (halting, still) = cycle-IsHalting s ready h in
    elim (cycle_status s) [
      | inl stops ↦ rw (run-stop cycle 1 s (λ e. cc)) stops
      | inr goes ↦
          rw (run-go cycle 1 s goes, run-one cycle (cycle s).0)
            (cycle-halt (cycle s).0 still halting)
    ]

run_ahead-halt : (s : CycleState) → IsAhead s.pipeline → (run cycle (s.d_stall_left + 2) s).1 ≡ halt
run_ahead-halt s h =
    let waited = run cycle s.d_stall_left s in
    let (goes, frozen, left, wb) = run_in_d_stall s.d_stall_left s (omega arith) in
    let ahead : IsAhead waited.0.pipeline = record {
      is_halt = rw frozen.ex_inst h.is_halt;
      is_nop = rw frozen.ex_inst h.is_nop;
      status = rw frozen.ex_inst h.status;
      reads_mem = rw frozen.ex_inst h.reads_mem;
      writes_mem = rw frozen.ex_inst h.writes_mem;
      mem_exception = rw frozen.ex_inst h.mem_exception;
      older_is_legal = rw frozen.mem_inst h.older_is_legal;
      older_mem_exception = rw frozen.mem_inst h.older_mem_exception;
    } in
    rw (run-add cycle s.d_stall_left 2 s goes) (two_cycles waited.0 (omega arith) ahead)

run_mem-halt :
    (s : CycleState) → IsHalting s.pipeline.mem_inst → (run cycle (s.d_stall_left + 2) s).1 ≡ halt
run_mem-halt s h =
    let ends = run-halt s h in
    let more : s.d_stall_left + 2 ≡ s.d_stall_left + 1 + 1 = omega arith in
    rw (more, run-left cycle (s.d_stall_left + 1) 1 s (λ e. cc)) ends

run_both-halt :
    (s : CycleState)
    → IsHalting s.pipeline.mem_inst ⊎ IsAhead s.pipeline
    → (run cycle (s.d_stall_left + 2) s).1 ≡ halt
run_both-halt s (inl h) = run_mem-halt s h
run_both-halt s (inr h) = run_ahead-halt s h

without_dumps-halts :
    (t : Option (Session × Status)) (s : CycleState)
    → without_dumps t ≡ some (s, halt)
    → (last : Session) × (t ≡ some (last, halt))
without_dumps-halts none s e = absurd cc
without_dumps-halts (some (last, status)) s e =
    let same : status ≡ halt = cc in (last, ap (λ x. some (last, x)) same)

-- Where MEM holds a HALT without a memory exception, or EX holds one that is neither a NOP nor
-- squashed and does not access the memory, behind a legal instruction without a memory exception in
-- MEM, runTillHalt returns HALT within the cycles that are left of a D-cache miss and two more.
pub run_till_halt-halts :
    (session : Session)
    → IsHalting session.state.pipeline.mem_inst ⊎ IsAhead session.state.pipeline
    → (last : Session) × (run_till_halt (session.state.d_stall_left + 2) session
        ≡ some (last, halt))
unfolding run_unbounded
run_till_halt-halts session h =
    let s = session.state in
    let ends = run_both-halt s h in
    let all = run cycle (s.d_stall_left + 2) s in
    without_dumps-halts _ all.0 (
      run_till_halt-without_dumps (s.d_stall_left + 2) session
      ∙ run_until-run cycle (s.d_stall_left + 2) s (λ e. cc)
      ∙ ap (λ x. some (all.0, x)) ends)
