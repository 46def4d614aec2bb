-- ===== src/Utilities/Dumps.antt =====
-- `dumpPipeState`, `dumpSimStats` and `getBaseFilename` of src/Utilities.cpp and src/Utilities.h: the
-- text of the files that they write.
use cos375_project.Base.{ℕ, Bool, true, [], ◌∷◌, ◌++◌, if◌then◌else◌, u32, Option, none, some, ◌==◌}
use cos375_project.Text.{Text, codes, dec, pad_left, pad_right}
use cos375_project.Utilities.{PipeState, SimulationStats, Status, success, error}
use cos375_project.Utilities.Disasm.{print_if_pc, print_instr}

abbrev pub endl : Text
endl = b'\n' ∷ []

-- A line of the file `_pipe_state.out`; `printInstr` takes 32 bits of an instruction.
unfoldable pub pipe_line : PipeState → Text
pipe_line state =
    codes "Cycle: "
    ++ pad_left 8 b' ' (dec state.cycle)
    ++ codes "\t|"
    ++ codes "|"
    ++ print_if_pc state.if_pc state.if_status
    ++ codes "|"
    ++ print_instr (u32 state.id_instr) state.id_status
    ++ codes "|"
    ++ print_instr (u32 state.ex_instr) state.ex_status
    ++ codes "|"
    ++ print_instr (u32 state.mem_instr) state.mem_status
    ++ codes "|"
    ++ print_instr (u32 state.wb_instr) state.wb_status
    ++ codes "|"
    ++ endl

-- The static variable `fileInit`, and the file: `none` where it cannot be opened.
pub record PipeFile : Type 0 where
  pub file_init : Bool
  pub content : Option Text

-- The first dump empties the file, the later ones append to it.
unfoldable pub dump_pipe_state : PipeState → PipeFile → Status × PipeFile
dump_pipe_state state file = elim file.content [
  | none ↦ (error, record { file_init = true; content = none })
  | some old ↦ (
    success,
    record {
      file_init = true;
      content = some ((if file.file_init then old else []) ++ pipe_line state);
    },
  )
]

-- A line of the statistics.
unfoldable pub stat_line : Text → ℕ → Text
stat_line label value = pad_right 23 b' ' label ++ dec value ++ endl

unfoldable pub stats_text : SimulationStats → Text
unfolding stat_line
stats_text stats =
    stat_line (codes "Dynamic instructions: ") stats.dynamic_instructions
    ++ stat_line (codes "Total cycles: ") stats.total_cycles
    ++ stat_line (codes "I-cache hits: ") stats.ic_hits
    ++ stat_line (codes "I-cache misses: ") stats.ic_misses
    ++ stat_line (codes "D-cache hits: ") stats.dc_hits
    ++ stat_line (codes "D-cache misses: ") stats.dc_misses
    ++ stat_line (codes "Load-use stalls: ") stats.load_use_stalls

-- The status, and what the file holds then; `opened` tells whether it could be opened.
unfoldable pub dump_sim_stats : SimulationStats → Bool → Status × Option Text
unfolding stats_text
dump_sim_stats stats opened = if opened then (success, some (stats_text stats)) else (error, none)

-- `getBaseFilename`: the path up to its last dot. `before_dot` is `none` where there is none.
unfoldable pub before_dot : Text → Option Text
before_dot [] = none
before_dot (c ∷ path) = elim (before_dot path) [
  | some base ↦ some (c ∷ base)
  | none ↦ if c == b'.' then some [] else none
]

unfoldable pub get_base_filename : Text → Text
get_base_filename path = elim (before_dot path) [ some base ↦ base | none ↦ path ]
