-- ===== src/Funct/Laws.antt =====
-- The loops of the functional simulator, and its count of instructions.
use cos375_project.Base.{
  ℕ, zero, suc, ◌+◌, ◌^◌, ◌≤◌, ◌<◌, ◌≡◌, ◌≢◌, refl, ◌∙◌, arith, some, ◌⊎◌, inl, inr, add64,
}
use cos375_project.Utilities.{Status, success}
use cos375_project.Simulator.Stages.{sim_instruction}
use cos375_project.Loop.{run}
use cos375_project.Loop.Laws.{
  Status-cases, run-go, run-stop, run-add, run_until-run, run_until-run-one,
}
use cos375_project.Funct.{
  Machine, step, run_counted, run_unbounded, run_instructions, run_till_halt,
}

-- runTillHalt and runInstructions(0) end with the same result on the same fuel.
pub run_till_halt-eq-run_unbounded :
    (fuel : ℕ) (m : Machine) → run_till_halt fuel m ≡ run_unbounded fuel m
unfolding run_till_halt run_unbounded run_counted
run_till_halt-eq-run_unbounded fuel m = run_until-run-one step fuel m

-- Where the loop of n instructions is left by HALT or an error, runTillHalt returns its result on n rounds.
pub run_till_halt-run_counted :
    (n : ℕ) (m : Machine)
    → (run_counted n m).1 ≢ success
    → run_till_halt n m ≡ some (run_counted n m)
unfolding run_unbounded run_counted
run_till_halt-run_counted n m ne = run_till_halt-eq-run_unbounded n m ∙ run_until-run step n m ne

-- The loop can be cut in pieces: after `a` instructions that succeed, `b` more are the
-- first `a + b`.
pub run_counted-add :
    (a b : ℕ) (m : Machine)
    → (run_counted a m).1 ≡ success
    → run_counted (a + b) m ≡ run_counted b (run_counted a m).0
unfolding run_counted
run_counted-add a b m e = run-add step a b m e

step_din : (m : Machine) → (step m).0.simulator.din ≡ add64 m.simulator.din 1
unfolding step sim_instruction
step_din m = ground arith

-- How a run of at most `n` instructions that ends in `r` took `k`: all succeeded, or `k - 1` did and
-- the next one, which was HALT or illegal, ended it.
abbrev pub EndsAt : ℕ → ℕ → Machine → Machine × Status → Type 0
EndsAt n k m r =
    ((r.1 ≡ success) × (k ≡ n))
    ⊎ ((r.1 ≢ success)
        × ((j : ℕ) × (k ≡ suc j) × ((run step j m).1 ≡ success) × (step (run step j m).0 ≡ r)))

one_more :
    (n k : ℕ) (m : Machine) (r : Machine × Status)
    → (step m).1 ≡ success
    → EndsAt n k (step m).0 r
    → EndsAt (suc n) (suc k) m r
one_more n k m r y (inl (e, all)) = inl (e, omega arith)
one_more n k m r y (inr (ne, (j, last, before, ends))) =
    let same = run-go step j m y in inr (ne, (suc j, omega arith, rw same before, rw same ends))

run_counted_din :
    (n : ℕ) (m : Machine)
    → m.simulator.din + n < 2 ^ 64
    → let r = run_counted n m in
      (k : ℕ) × (k ≤ n) × (r.0.simulator.din ≡ m.simulator.din + k) × EndsAt n k m r
unfolding run_counted
run_counted_din zero m h =
    (0, omega arith, unfold run in omega arith, inl (unfold run in (refl, refl)))
run_counted_din (suc n) m h =
    let counted : (step m).0.simulator.din ≡ m.simulator.din + 1 = omega (arith, step_din m) in
    elim (Status-cases (step m).1) [
      | inl y ↦
          let (k, le, din, ends) = run_counted_din n (step m).0 (omega arith) in
          rw (run-go step n m y)
            (suc k, omega arith, omega arith, one_more n k m (run step n (step m).0) y ends)
      | inr stop ↦
          rw (run-stop step n m stop)
            (1, omega arith, counted, inr (stop, (0, refl, unfold run in refl, unfold run in refl)))
    ]

-- Where n is not 0 and the count stays below 2^64, runInstructions(n) returns, and has counted each
-- instruction that it ran: all n where it succeeds, and else those that succeeded and the one after
-- them, HALT or illegal, whose round it ends with.
pub run_instructions_din :
    (fuel n : ℕ) (m : Machine)
    → 0 < n
    → m.simulator.din + n < 2 ^ 64
    → (r : Machine × Status) × (run_instructions fuel n m ≡ some r)
      × ((k : ℕ) × (k ≤ n) × (r.0.simulator.din ≡ m.simulator.din + k) × EndsAt n k m r)
unfolding run_instructions
run_instructions_din fuel n m pos h = (run_counted n m, ground arith, run_counted_din n m h)
