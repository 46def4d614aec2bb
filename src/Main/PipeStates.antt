-- ===== src/Main/PipeStates.antt =====
-- The file of the pipeline's states that `dumpPipeState` of src/Utilities.cpp writes over a run.
use cos375_project.Base.{◌≡◌, refl, ap, true, false, List, [], ◌∷◌, ◌++◌, some}
use cos375_project.Text.{Text}
use cos375_project.Utilities.{PipeState}
use cos375_project.Utilities.Dumps.{PipeFile, pipe_line, dump_pipe_state}
use cos375_project.Main.{dump_all}

-- The lines of the states, the latest first in the list and last in the text.
abbrev pub pipe_text : List PipeState → Text
pipe_text [] = []
pipe_text (state ∷ earlier) = pipe_text earlier ++ pipe_line state

abbrev written : Text → PipeFile
written text = record { file_init = true; content = some text }

-- Over the dumps of a run, at least one, the file of the pipeline's states, whatever it held
-- before, comes to hold their lines in the order of the cycles and nothing else.
pub dump_all-pipe_text :
    (state : PipeState) (earlier : List PipeState) (old : Text)
    → dump_all (state ∷ earlier) (record { file_init = false; content = some old })
      ≡ record { file_init = true; content = some (pipe_text (state ∷ earlier)) }
unfolding dump_all dump_pipe_state
dump_all-pipe_text state [] old = refl
dump_all-pipe_text state (before ∷ earlier) old =
    ap (λ f. (dump_pipe_state state f).1) (dump_all-pipe_text before earlier old)
