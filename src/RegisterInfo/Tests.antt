-- ===== src/RegisterInfo/Tests.antt =====
-- The dump of src/RegisterInfo.h on a file of registers.
use cos375_project.Base.{◌≡◌, [], ◌∷◌, replicate}
use cos375_project.Text.{codes, concat}
use cos375_project.Utilities.Dumps.{endl}
use cos375_project.RegisterInfo.{reg_of, register_text, rule}
use cos375_project.RegisterInfo.Laws.{reg_lines, register_text-reg_of}

register_text-reg_of_example :
    register_text (reg_of (0 ∷ 0xff ∷ replicate 30 7))
    ≡ concat (
        rule
        ∷ codes "Begin Register Values"
        ∷ endl
        ∷ rule
        ∷ reg_lines (0 ∷ 0xff ∷ replicate 30 7) 1 4 (
            endl
            ∷ reg_lines (0 ∷ 0xff ∷ replicate 30 7) 5 3 (
                endl
                ∷ reg_lines (0 ∷ 0xff ∷ replicate 30 7) 8 2 (
                    endl
                    ∷ reg_lines (0 ∷ 0xff ∷ replicate 30 7) 10 8 (
                        endl
                        ∷ reg_lines (0 ∷ 0xff ∷ replicate 30 7) 18 10 (
                            endl
                            ∷ reg_lines
                                (0 ∷ 0xff ∷ replicate 30 7)
                                28
                                4
                                (rule ∷ codes "End Register Values" ∷ endl ∷ rule ∷ [])))))))
register_text-reg_of_example = register_text-reg_of (0 ∷ 0xff ∷ replicate 30 7)
