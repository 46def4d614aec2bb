-- ===== src/Main/SimCycle/PipeLines.antt =====
-- What `runTillHalt` of src/cycle.cpp dumps over a run that ends with HALT.
use cos375_project.Base.{
  ℕ, zero, suc, ◌≡◌, ◌≢◌, sym, ◌∙◌, ap, false, List, [], ◌∷◌, ◌++◌, some, inl, inr,
}
use mathlib.Core.List.{append-nil, append_assoc}
use cos375_project.Text.{Text}
use cos375_project.Utilities.{success, halt, PipeState}
use cos375_project.Utilities.Dumps.{pipe_line}
use cos375_project.Loop.{run}
use cos375_project.Loop.Laws.{Status-cases, run-go, run-stop, run-one, run_until-go, run_until-stop}
use cos375_project.Cycle.{CycleState}
use cos375_project.Cycle.Step.{cycle, pipe_state, run_cycles, Session, run_till_halt}
use cos375_project.Cycle.Runs.{dumped, run_cycles-one}
use cos375_project.Main.{dump_all}
use cos375_project.Main.PipeStates.{pipe_text, dump_all-pipe_text}

-- The lines of the states after each of `n` cycles, in the order of the cycles.
abbrev pub pipe_lines : ℕ → CycleState → Text
pipe_lines zero s = []
pipe_lines (suc n) s = pipe_line (pipe_state (cycle s).0) ++ pipe_lines n (cycle s).0

-- Where a run succeeds for k cycles and halts in the next, runTillHalt on as much fuel returns HALT
-- with the state of the run, after it has dumped the states of these cycles in their order.
pub run_till_halt-pipe_lines :
    (k : ℕ) (session : Session)
    → (run cycle k session.state).1 ≡ success
    → (run cycle (suc k) session.state).1 ≡ halt
    → (last : Session) × (run_till_halt (suc k) session ≡ some (last, halt))
      × (last.state ≡ (run cycle (suc k) session.state).0)
      × (pipe_text last.dumps ≡ pipe_text session.dumps ++ pipe_lines (suc k) session.state)
unfolding run_till_halt
run_till_halt-pipe_lines zero session ok halts =
    let one = run-one cycle session.state in
    let stops : (cycle session.state).1 ≡ halt = rw one at halts in
    let same = run_cycles-one session in
    let stop : (run_cycles 1 session).1 ≢ success = λ e. cc in
    (
      (dumped session).0,
      run_until-stop (run_cycles 1) 0 session stop
          ∙ ap some same
          ∙ ap (λ t. some ((dumped session).0, t)) stops,
      ap (λ r. r.0) (sym one),
      ap (λ t. pipe_text session.dumps ++ t) (sym (append-nil _)),
    )
run_till_halt-pipe_lines (suc k) session ok halts = elim (Status-cases (cycle session.state).1) [
  | inl y ↦
      let same = run_cycles-one session in
      let go = run-go cycle k session.state y in
      let go_on = run-go cycle (suc k) session.state y in
      let next = (dumped session).0 in
      let (last, ends, state, text) =
        run_till_halt-pipe_lines k next (rw go at ok) (rw go_on at halts) in
      (
        last,
        run_until-go (run_cycles 1) (suc k) session (rw same y) ∙ rw same ends,
        rw go_on state,
        text ∙ append_assoc (pipe_text session.dumps) _ _,
      )
  | inr stop ↦ absurd (stop (rw (run-stop cycle k session.state stop) at ok))
]

-- The file of the dumps, where it could be opened.
pub dump_all-content :
    (dumps : List PipeState) (text : Text)
    → pipe_text dumps ≡ text
    → (dump_all dumps (record { file_init = false; content = some [] })).content ≡ some text
dump_all-content [] text e = unfold dump_all in ap some e
dump_all-content (state ∷ earlier) text e =
    ap (λ f. f.content) (dump_all-pipe_text state earlier []) ∙ ap some e
