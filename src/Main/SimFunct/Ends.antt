-- ===== src/Main/SimFunct/Ends.antt =====
-- How `main` of src/sim_funct.cpp ends.
use cos375_project.Base.{ℕ, ◌≡◌, ◌≢◌, refl, ◌∙◌, arith, true, List, [], ◌∷◌, ◌++◌, some}
use cos375_project.Text.{Text, codes}
use cos375_project.Utilities.{Status, success}
use cos375_project.Utilities.Dumps.{stats_text, dump_sim_stats, get_base_filename}
use cos375_project.MemoryStore.{MemoryStore}
use cos375_project.MemoryStore.Prepare.{memory_of_file}
use cos375_project.MemoryStore.Access.{IsMemory}
use cos375_project.Simulator.{new_simulator}
use cos375_project.Simulator.Memory.{IsMemoryOf, sim_instruction-IsMemoryOf}
use cos375_project.Loop.{run}
use cos375_project.Loop.Laws.{run-keeps, run_until-run}
use cos375_project.RegisterInfo.{reg_of, register_text}
use cos375_project.Funct.{
  Machine, init_simulator, step, run_unbounded, run_till_halt, finalize_stats,
}
use cos375_project.Funct.Laws.{run_till_halt-eq-run_unbounded}
use cos375_project.Main.{Directory, returned, named, memory_size}
use cos375_project.Main.Memories.{memory_of_file-IsMemoryOf}
use cos375_project.Main.Outcomes.{IsMemoryText, dump_reg_mem-returns}
use cos375_project.Main.SimFunct.{finalize_simulator, simulate, main}

step-IsMemoryOf :
    (cells : ℕ) (m : Machine)
    → IsMemoryOf cells m.simulator.memory
    → IsMemoryOf cells (step m).0.simulator.memory
unfolding step
step-IsMemoryOf cells m h = sim_instruction-IsMemoryOf cells m.simulator m.pc h

finalize_simulator-returns :
    (dir : Directory) (m : Machine) (base : Text)
    → ((name : Text) → dir.writable name ≡ true)
    → IsMemory m.simulator.memory
    → (text : Text) × IsMemoryText dir m.simulator.memory text
      × (finalize_simulator dir m base
          ≡ some (
              (base ++ codes "_reg_state.out", register_text (reg_of m.simulator.registers))
              ∷ (base ++ codes "_mem_state.out", text)
              ∷ (base ++ codes "_sim_stats.out", stats_text (finalize_stats m))
              ∷ []))
unfolding finalize_simulator dump_sim_stats named
finalize_simulator-returns dir m base opens h =
    let (text, is_text, ends) = dump_reg_mem-returns dir m.simulator base opens h in
    (text, is_text, rw (finalize_simulator, ends, opens (base ++ codes "_sim_stats.out")) refl)

-- Where every file can be opened for writing, the constructor of the memory passes its assertion,
-- and n instructions from the initial state bring a status other than SUCCESS, main of the
-- functional simulator on fuel n returns that status, and has written exactly three files: the
-- registers, the memory, whose dump ends, and the statistics, all of the state that those
-- instructions leave.
pub main-returns_status :
    (n : ℕ) (program input_file : Text) (more : List Text) (dir : Directory) (mem : MemoryStore)
    → ((name : Text) → dir.writable name ≡ true)
    → memory_of_file 0 memory_size (dir.read (codes "init_mem_image")) (dir.read input_file)
      ≡ some mem
    → (run step n (init_simulator mem)).1 ≢ success
    → let r : Machine × Status = run step n (init_simulator mem) in
      let base : Text = get_base_filename input_file ++ codes "_funct" in
      (text : Text) × IsMemoryText dir r.0.simulator.memory text
      × (main n (program ∷ input_file ∷ more) dir
          ≡ some (
              returned r.1 (
                (base ++ codes "_reg_state.out", register_text (reg_of r.0.simulator.registers))
                ∷ (base ++ codes "_mem_state.out", text)
                ∷ (base ++ codes "_sim_stats.out", stats_text (finalize_stats r.0))
                ∷ [])))
unfolding main simulate
main-returns_status n program input_file more dir mem opens found stop =
    let base = get_base_filename input_file ++ codes "_funct" in
    let r = run step n (init_simulator mem) in
    let whole =
      memory_of_file-IsMemoryOf memory_size 0 (dir.read (codes "init_mem_image"))
        (dir.read input_file) mem (omega arith) found in
    let kept =
      run-keeps step (λ t. IsMemoryOf memory_size t.simulator.memory) (step-IsMemoryOf memory_size)
        n (init_simulator mem) (unfold init_simulator new_simulator in whole) in
    let (text, is_text, done) = finalize_simulator-returns dir r.0 base opens kept.memory in
    let ends : run_till_halt n (init_simulator mem) ≡ some r =
      run_till_halt-eq-run_unbounded n (init_simulator mem)
      ∙ unfold run_unbounded in run_until-run step n (init_simulator mem) stop in
    (text, is_text, rw (main, found, simulate, ends, done) refl)
