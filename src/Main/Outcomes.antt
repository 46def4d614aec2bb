-- ===== src/Main/Outcomes.antt =====
-- The main programs of src/sim_cycle.cpp and src/sim_funct.cpp from end to end.
use cos375_project.Base.{◌+◌, ◌≡◌, refl, arith, true, [], ◌∷◌, ◌++◌, Option, none, some, length}
use cos375_project.Text.{Text, codes}
use cos375_project.MemoryStore.{MemoryStore, word_size}
use cos375_project.MemoryStore.Print.{print_range, dump_memory_state}
use cos375_project.MemoryStore.PrintFaults.{print_mem_array-returns}
use cos375_project.Simulator.{Simulator}
use cos375_project.MemoryStore.Access.{IsMemory}
use cos375_project.RegisterInfo.{reg_of, register_text, dump_register_state}
use cos375_project.Main.{Directory, named, dump_reg_mem}

-- A result is passed on, to a file that opens.
on_some :
    {A B : Type 0} (t : Option A) (f : A → B)
    → (r : A) × (t ≡ some r)
    → (s : B) × ((elim t as (λ _. Option (Option B)) [ none ↦ none | some x ↦ some (some (f x)) ])
        ≡ some (some s))
on_some t f (r, e) = (f r, rw e refl)

-- The dump of a memory into a file that opens ends within the rows that `dumpRegMem` is given.
dump_memory_state-returns :
    (mem : MemoryStore) (range : Option Text)
    → IsMemory mem
    → (text : Text) × (dump_memory_state (length mem.mem_arr + 2) mem range true ≡ some (some text))
unfolding dump_memory_state
dump_memory_state-returns mem range h =
    let (from, to) = print_range range in
    on_some _ _ (
      print_mem_array-returns mem from to word_size 5 (length mem.mem_arr + 2) h (omega arith)
        (omega arith))

-- The text that the memory's dump writes, with the rows that `dumpRegMem` is given.
abbrev pub IsMemoryText : Directory → MemoryStore → Text → Type 0
IsMemoryText dir mem text =
    dump_memory_state (length mem.mem_arr + 2) mem (dir.read (codes "print_mem_range")) true
    ≡ some (some text)

pub dump_reg_mem-returns :
    (dir : Directory) (sim : Simulator) (base : Text)
    → ((name : Text) → dir.writable name ≡ true)
    → IsMemory sim.memory
    → (text : Text) × IsMemoryText dir sim.memory text
      × (dump_reg_mem dir sim base
          ≡ some (
              (base ++ codes "_reg_state.out", register_text (reg_of sim.registers))
              ∷ (base ++ codes "_mem_state.out", text)
              ∷ []))
unfolding dump_reg_mem dump_register_state named
dump_reg_mem-returns dir sim base opens h =
    let (text, ends) =
      dump_memory_state-returns sim.memory (dir.read (codes "print_mem_range")) h in
    (
      text,
      ends,
      rw
          (
            dump_reg_mem,
            opens (base ++ codes "_mem_state.out"),
            ends,
            opens (base ++ codes "_reg_state.out"),
          )
          refl,
    )
