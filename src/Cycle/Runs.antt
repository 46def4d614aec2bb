-- ===== src/Cycle/Runs.antt =====
-- The loops of src/cycle.cpp over whole runs: how many cycles are counted, when they end, and what
-- the statistics can show.
use cos375_project.Base.{
  Option, none, ℕ, zero, suc, ◌+◌, ◌^◌, ◌≤◌, ◌<◌, ◌≡◌, ◌≢◌, refl, sym, arith, ◌⊎◌, inl, inr, Bool,
  true, false, Bool-cases, add64, if◌then◌else◌, some, ◌∷◌, length,
}
use cos375_project.Utilities.{Status, success, halt}
use cos375_project.Cache.{Cache, CacheOperation, access}
use cos375_project.Cache.Access.{access_counts}
use cos375_project.Loop.{run, run_until}
use cos375_project.Loop.Laws.{Status-cases, run-go, run-stop, run-one, run_until-go, run_until-stop}
use cos375_project.Cycle.{CycleState, PipelineInfo}
use cos375_project.Cycle.Counts.{AtMostOnce, cycle_counts}
use cos375_project.Cycle.Step.{
  cycle, squash_younger, run_cycles, run_till_halt, run_unbounded, Session, pipe_state,
}

abbrev accesses : Cache → ℕ
accesses c = c.hits + c.misses

-- No statistic exceeds the number of cycles.
pub record IsCounted (s : CycleState) : Type 0 where
  pub retired : s.dyn_retired ≤ s.cycle_count
  pub stalls : s.load_use_stall_count ≤ s.cycle_count
  pub i_accesses : accesses s.i_cache ≤ s.cycle_count
  pub d_accesses : accesses s.d_cache ≤ s.cycle_count

access_adds :
    (c : Cache) (address : ℕ) (op : CacheOperation)
    → accesses c + 1 < 2 ^ 64
    → accesses (access c address op).0 ≡ accesses c + 1
access_adds c address op h =
    let counts = access_counts c address op in
    elim (Bool-cases (access c address op).1) [
      | inl y ↦ ground (arith, counts.0, counts.1)
      | inr n ↦ ground (arith, counts.0, counts.1)
    ]

once_adds :
    (c c' : Cache) → AtMostOnce c c' → accesses c + 1 < 2 ^ 64 → accesses c' ≤ accesses c + 1
once_adds c c' (inl e) h = rw e (omega arith)
once_adds c c' (inr (address, op, e)) h = rw e (omega (arith, access_adds c address op h))

counted_step : (n n' bound : ℕ) → (n' ≡ n) ⊎ (n' ≡ add64 n 1) → n ≤ bound → n' ≤ bound + 1
counted_step n n' bound (inl e) h = omega arith
counted_step n n' bound (inr e) h = omega arith

cycle_count-suc :
    (s : CycleState) → s.cycle_count + 1 < 2 ^ 64 → (cycle s).0.cycle_count ≡ s.cycle_count + 1
cycle_count-suc s h = omega (arith, (cycle_counts s).0)

-- A cycle keeps the statistics below the number of cycles.
pub cycle-IsCounted :
    (s : CycleState) → s.cycle_count + 1 < 2 ^ 64 → IsCounted s → IsCounted (cycle s).0
cycle-IsCounted s h counted =
    let (_, retired, stalls, i_once, d_once) = cycle_counts s in
    record {
      retired = rw (cycle_count-suc s h) (counted_step _ _ _ retired counted.retired);
      stalls = rw (cycle_count-suc s h) (counted_step _ _ _ stalls counted.stalls);
      i_accesses = rw (cycle_count-suc s h) (
          omega
            (arith, once_adds _ _ i_once (omega (arith, counted.i_accesses)), counted.i_accesses));
      d_accesses = rw (cycle_count-suc s h) (
          omega
            (arith, once_adds _ _ d_once (omega (arith, counted.d_accesses)), counted.d_accesses));
    }

squash_younger_wb : (b : Bool) (p : PipelineInfo) → (squash_younger b p).wb_inst ≡ p.wb_inst
unfolding squash_younger
squash_younger_wb true p = refl
squash_younger_wb false p = refl

cycle_status :
    (s : CycleState)
    → (cycle s).1 ≡ (if (cycle s).0.pipeline.wb_inst.is_halt then halt else success)
unfolding cycle
cycle_status s = rw (squash_younger_wb _ _) refl

halts-only : (b : Bool) → (if b then halt else success) ≢ success → b ≡ true
halts-only b ne = ground arith

-- A cycle ends the run only when HALT stands in WB.
cycle_stops : (s : CycleState) → (cycle s).1 ≢ success → (cycle s).0.pipeline.wb_inst.is_halt ≡ true
cycle_stops s ne = halts-only _ (rw (cycle_status s) at ne)

one_more :
    {P : Type 0} {t : Status} {k n : ℕ}
    → ((t ≡ success) × (k ≡ n)) ⊎ P
    → ((t ≡ success) × (k + 1 ≡ suc n)) ⊎ P
one_more (inl (e, all)) = inl (e, omega arith)
one_more (inr p) = inr p

-- From a state whose statistics are at most its number of cycles, and with n more cycles below
-- 2^64, the loop of at most n cycles counts the k cycles it ran, keeps the retired instructions,
-- the load-use stalls and each cache's accesses at most the number of cycles, and either succeeds
-- with k equal to n or ends with HALT in WB.
pub run-IsCounted :
    (n : ℕ) (s : CycleState)
    → s.cycle_count + n < 2 ^ 64
    → IsCounted s
    → let r = run cycle n s in
      (k : ℕ) × (k ≤ n)
      × (r.0.cycle_count ≡ s.cycle_count + k)
      × IsCounted r.0
      × (((r.1 ≡ success) × (k ≡ n)) ⊎ ((r.1 ≢ success) × (r.0.pipeline.wb_inst.is_halt ≡ true)))
run-IsCounted zero s h counted =
    unfold run in (0, omega arith, omega arith, counted, inl (refl, refl))
run-IsCounted (suc n) s h counted =
    let one : (cycle s).0.cycle_count ≡ s.cycle_count + 1 = cycle_count-suc s (omega arith) in
    let kept = cycle-IsCounted s (omega arith) counted in
    elim (Status-cases (cycle s).1) [
      | inl y ↦
          let (k, le, count, rest, ends) = run-IsCounted n (cycle s).0 (omega arith) kept in
          rw (run-go cycle n s y) (k + 1, omega arith, omega arith, rest, one_more ends)
      | inr stop ↦
          rw (run-stop cycle n s stop) (1, omega arith, one, kept, inr (stop, cycle_stops s stop))
    ]

-- A round of `runTillHalt`: a cycle, and its dump.
abbrev pub dumped : Session → Session × Status
dumped session = (
  record {
    state = (cycle session.state).0;
    dumps = pipe_state (cycle session.state).0 ∷ session.dumps;
  },
  (cycle session.state).1,
)

pub run_cycles-one : (session : Session) → run_cycles 1 session ≡ dumped session
unfolding run_cycles
run_cycles-one session = rw (run-one cycle session.state) refl

run_till_halt-ends :
    (fuel : ℕ) (session : Session) (r : Session × Status)
    → session.state.cycle_count + fuel < 2 ^ 64
    → run_till_halt fuel session ≡ some r
    → (run_unbounded fuel session.state ≡ some (r.0.state, r.1))
      × (length r.0.dumps + session.state.cycle_count
          ≡ length session.dumps + r.0.state.cycle_count)
unfolding run_till_halt run_unbounded
run_till_halt-ends zero session r h e = unfold run_until in cc
run_till_halt-ends (suc fuel) session r h e =
    let next = (dumped session).0 in
    let one : next.state.cycle_count ≡ session.state.cycle_count + 1 =
      cycle_count-suc session.state (omega arith) in
    let same = run_cycles-one session in
    elim (Status-cases (cycle session.state).1) [
      | inl y ↦
          let go = run_until-go (run_cycles 1) fuel session (rw same y) in
          let (ends, count) = run_till_halt-ends fuel next r (omega arith) (rw (go, same) at e) in
          (rw (run_until-go cycle fuel session.state y) ends, omega arith)
      | inr stop ↦
          let stopped = run_until-stop (run_cycles 1) fuel session (rw same stop) in
          let is_dumped : dumped session ≡ r = ground (arith, same, stopped) in
          rw (sym is_dumped) (run_until-stop cycle fuel session.state stop, omega arith)
    ]

-- What is left of a result when the dumps are forgotten.
abbrev pub without_dumps : Option (Session × Status) → Option (CycleState × Status)
without_dumps none = none
without_dumps (some r) = some (r.0.state, r.1)

-- On the same fuel, runTillHalt returns exactly where runCycles(0) returns, with the same state and
-- status.
pub run_till_halt-without_dumps :
    (fuel : ℕ) (session : Session)
    → without_dumps (run_till_halt fuel session) ≡ run_unbounded fuel session.state
unfolding run_till_halt run_unbounded
run_till_halt-without_dumps zero session = unfold run_until in refl
run_till_halt-without_dumps (suc fuel) session =
    let next = (dumped session).0 in
    let same = run_cycles-one session in
    elim (Status-cases (cycle session.state).1) [
      | inl y ↦
          rw
            (
              run_until-go (run_cycles 1) fuel session (rw same y),
              same,
              run_until-go cycle fuel session.state y,
            )
            (run_till_halt-without_dumps fuel next)
      | inr stop ↦
          rw
            (
              run_until-stop (run_cycles 1) fuel session (rw same stop),
              same,
              run_until-stop cycle fuel session.state stop,
            )
            refl
    ]

-- Where the cycles stay below 2^64 and runTillHalt returns, it has written one dump for each cycle
-- that the run counted.
pub run_till_halt-dumps :
    (fuel : ℕ) (session : Session) (r : Session × Status)
    → session.state.cycle_count + fuel < 2 ^ 64
    → run_till_halt fuel session ≡ some r
    → length r.0.dumps + session.state.cycle_count ≡ length session.dumps + r.0.state.cycle_count
run_till_halt-dumps fuel session r h e = (run_till_halt-ends fuel session r h e).1
