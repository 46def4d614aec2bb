-- ===== src/Loop.antt =====
-- The `while` loops of src/funct.cpp and src/cycle.cpp: rounds of one step that goes on while its
-- status is SUCCESS, for a number of rounds or until another status comes.
pub mod Laws
use cos375_project.Base.{ℕ, zero, suc, Option, none, some}
use cos375_project.Utilities.{Status, success, error, halt}

module _ {S : Type 0} (step : S → S × Status) where
  -- `while (count < n)`, which leaves the loop on a status other than SUCCESS.
  unfoldable pub run : ℕ → S → S × Status
  run zero s = (s, success)
  run (suc n) s = elim (step s).1 [ success ↦ run n (step s).0 | error ↦ step s | halt ↦ step s ]

  -- `while (true)`, on fuel: `none` means that the fuel ran out.
  unfoldable pub run_until : ℕ → S → Option (S × Status)
  run_until zero s = none
  run_until (suc fuel) s = elim (step s).1 [
    | success ↦ run_until fuel (step s).0
    | error ↦ some (step s)
    | halt ↦ some (step s)
  ]
