-- ===== src/Main.antt =====
-- The main programs of src/sim_cycle.cpp and src/sim_funct.cpp, from their arguments and the files they
-- read to the files they write.
pub mod Config
pub mod ReadConfig
pub mod PipeStates
pub mod Memories
pub mod Outcomes
pub mod SimCycle
pub mod SimFunct
mod Tests
use cos375_project.Base.{ℕ, ◌+◌, Bool, List, [], ◌∷◌, ◌++◌, Option, none, some, length}
use cos375_project.Text.{Text, codes}
use cos375_project.Utilities.{Status, PipeState}
use cos375_project.Utilities.Dumps.{PipeFile, dump_pipe_state}
use cos375_project.RegisterInfo.{reg_of, dump_register_state}
use cos375_project.MemoryStore.Print.{dump_memory_state}
use cos375_project.Simulator.{Simulator}

-- What the program finds in the directory: the contents of a file by its name, and the names that it
-- can open for writing.
pub record Directory : Type 0 where
  pub read : Text → Option Text
  pub writable : Text → Bool

-- A file that a dump wrote, with its name.
unfoldable pub named : Text → Option Text → List (Text × Text)
named name none = []
named name (some text) = (name, text) ∷ []

-- How a program ends: by `exit` in `parseArgs`, by the assertion of the constructor of `MemoryStore`, or
-- by the return of `main` with the files written.
pub data Outcome : Type 0 where
  exited : Status → Outcome
  aborted : Outcome
  returned : Status → List (Text × Text) → Outcome

abbrev pub memory_size : ℕ
memory_size = 0x10000

-- `Simulator::dumpRegMem`; a row of the memory's dump takes at least one cell.
unfoldable pub dump_reg_mem : Directory → Simulator → Text → Option (List (Text × Text))
unfolding named
dump_reg_mem dir sim base =
    let reg_name = base ++ codes "_reg_state.out" in
    let mem_name = base ++ codes "_mem_state.out" in
    let reg = dump_register_state (reg_of sim.registers) (dir.writable reg_name) in
    let mem =
      dump_memory_state (length sim.memory.mem_arr + 2) sim.memory
        (dir.read (codes "print_mem_range")) (dir.writable mem_name) in
    elim mem [ none ↦ none | some text ↦ some (named reg_name reg.1 ++ named mem_name text) ]

-- The dumps of a run, the latest first, one after the other.
unfoldable pub dump_all : List PipeState → PipeFile → PipeFile
dump_all [] file = file
dump_all (state ∷ earlier) file = (dump_pipe_state state (dump_all earlier file)).1
