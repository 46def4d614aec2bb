-- ===== src/Loop/Laws.antt =====
-- The two loops agree, and a loop can be cut into pieces.
use cos375_project.Base.{
  ℕ, zero, suc, ◌+◌, ◌≡◌, ◌≢◌, refl, sym, ◌∙◌, ap, arith, some, ◌⊎◌, inl, inr,
}
use mathlib.Core.Path.{fun_ext}
use native.Mathlib.Nat.{suc-add, zero-add}
use cos375_project.Utilities.{Status, success, error, halt}
use cos375_project.Loop.{run, run_until}

pub Status-cases : (t : Status) → (t ≡ success) ⊎ (t ≢ success)
Status-cases success = inl refl
Status-cases error = inr (λ e. cc)
Status-cases halt = inr (λ e. cc)

module _ {S : Type 0} (step : S → S × Status) where
  pub run-go : (n : ℕ) (s : S) → (step s).1 ≡ success → run step (suc n) s ≡ run step n (step s).0
  unfolding run
  run-go n s e = rw (e, run)

  pub run-stop : (n : ℕ) (s : S) → (step s).1 ≢ success → run step (suc n) s ≡ step s
  unfolding run
  run-stop n s ne = ground (arith, ne)

  pub run_until-go :
      (fuel : ℕ) (s : S)
      → (step s).1 ≡ success
      → run_until step (suc fuel) s ≡ run_until step fuel (step s).0
  unfolding run_until
  run_until-go fuel s e = rw (e, run_until)

  pub run_until-stop :
      (fuel : ℕ) (s : S) → (step s).1 ≢ success → run_until step (suc fuel) s ≡ some (step s)
  unfolding run_until
  run_until-stop fuel s ne = ground (arith, ne)

  -- A loop of `a + b` rounds is one of `a` rounds, and one of `b` rounds if that was not left.
  pub run-add :
      (a b : ℕ) (s : S)
      → (run step a s).1 ≡ success
      → run step (a + b) s ≡ run step b (run step a s).0
  run-add zero b s e = rw zero-add (unfold run in refl)
  run-add (suc a) b s e = elim (Status-cases (step s).1) [
    | inl y ↦
        rw (suc-add a b, run-go (a + b) s y, run-go a s y)
          (run-add a b (step s).0 (rw (run-go a s y) at e))
    | inr n ↦ absurd (n (rw (run-stop a s n) at e))
  ]

  -- A loop that was left stays as it is.
  pub run-left : (a b : ℕ) (s : S) → (run step a s).1 ≢ success → run step (a + b) s ≡ run step a s
  run-left zero b s ne = absurd (ne (unfold run in refl))
  run-left (suc a) b s ne = elim (Status-cases (step s).1) [
    | inl y ↦
        rw (suc-add a b, run-go (a + b) s y, run-go a s y)
          (run-left a b (step s).0 (rw (run-go a s y) at ne))
    | inr n ↦ rw (suc-add a b, run-stop (a + b) s n, run-stop a s n)
  ]

  -- The open loop ends with what the counted loop ends with, on the same number of rounds.
  pub run_until-run :
      (n : ℕ) (s : S) → (run step n s).1 ≢ success → run_until step n s ≡ some (run step n s)
  run_until-run zero s ne = absurd (ne (unfold run in refl))
  run_until-run (suc n) s ne = elim (Status-cases (step s).1) [
    | inl y ↦
        rw (run_until-go n s y, run-go n s y) (run_until-run n (step s).0 (rw (run-go n s y) at ne))
    | inr stop ↦ rw (run_until-stop n s stop, run-stop n s stop)
  ]

  -- What the open loop ends with, the counted loop ends with, and it was left.
  pub run-run_until :
      (n : ℕ) (s : S) (r : S × Status)
      → run_until step n s ≡ some r
      → (run step n s ≡ r) × (r.1 ≢ success)
  run-run_until zero s r e = unfold run_until in cc
  run-run_until (suc n) s r e = elim (Status-cases (step s).1) [
    | inl y ↦ rw (run-go n s y) (run-run_until n (step s).0 r (rw (run_until-go n s y) at e))
    | inr stop ↦
        let same : step s ≡ r = ground (arith, run_until-stop n s stop) in
        rw (run-stop n s stop) (same, rw same at stop)
  ]

  -- A round at a time is the loop itself.
  pub run-one : (s : S) → run step 1 s ≡ step s
  run-one s = elim (Status-cases (step s).1) [
    | inl y ↦ run-go 0 s y ∙ unfold run in λ i. ((step s).0, sym y i)
    | inr n ↦ run-stop 0 s n
  ]

  pub run_until-run-one : (fuel : ℕ) (s : S) → run_until (run step 1) fuel s ≡ run_until step fuel s
  run_until-run-one fuel s = ap (λ g. run_until g fuel s) (fun_ext run-one)

  -- What a round keeps, the loop keeps.
  pub run-keeps :
      (P : S → Type 0) → ((s : S) → P s → P (step s).0) → (n : ℕ) (s : S) → P s → P (run step n s).0
  run-keeps P keeps zero s p = unfold run in p
  run-keeps P keeps (suc n) s p = elim (Status-cases (step s).1) [
    | inl y ↦ rw (run-go n s y) (run-keeps P keeps n (step s).0 (keeps s p))
    | inr stop ↦ rw (run-stop n s stop) (keeps s p)
  ]
