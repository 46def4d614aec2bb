-- ===== src/RegisterInfo/Laws.antt =====
-- The register dump of src/RegisterInfo.h against the numbers and the names of the registers.
use cos375_project.Base.{ℕ, zero, suc, ◌+◌, ◌≡◌, refl, List, [], ◌∷◌, get_or}
use cos375_project.Text.{Text, codes, concat}
use cos375_project.Utilities.Dumps.{endl}
use cos375_project.Utilities.Disasm.{reg_name}
use cos375_project.RegisterInfo.{reg_of, reg_line, register_pieces, register_text, rule}

-- The lines of `count` registers from number `first`, in front of other pieces.
abbrev pub reg_lines : List ℕ → ℕ → ℕ → List Text → List Text
reg_lines registers first zero rest = rest
reg_lines registers first (suc count) rest =
    reg_line (reg_name first) (get_or registers first 0)
    ∷ reg_lines registers (first + 1) count rest

-- The register dump shows the registers 1 to 31 in the order of their numbers, each under the name
-- by which the disassembler shows it and with its value in the array, in six blocks.
pub register_text-reg_of :
    (registers : List ℕ)
    → register_text (reg_of registers)
      ≡ concat (
          rule
          ∷ codes "Begin Register Values"
          ∷ endl
          ∷ rule
          ∷ reg_lines registers 1 4 (
              endl
              ∷ reg_lines registers 5 3 (
                  endl
                  ∷ reg_lines registers 8 2 (
                      endl
                      ∷ reg_lines registers 10 8 (
                          endl
                          ∷ reg_lines registers 18 10 (
                              endl
                              ∷ reg_lines registers 28 4
                                  (rule ∷ codes "End Register Values" ∷ endl ∷ rule ∷ [])))))))
unfolding register_text register_pieces reg_of reg_name
register_text-reg_of registers = refl
