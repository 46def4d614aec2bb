-- ===== src/Utilities/Legal/Mnemonics.antt =====
-- The mnemonics of src/Utilities.cpp are those of the legal fields of each opcode.
use cos375_project.Base.{ℕ, refl, not, ◌&&◌, []}
use cos375_project.Text.{codes}
use cos375_project.Utilities.Op
use cos375_project.Utilities.OpString.{
  int_body, intw_body, load_body, store_body, branch_body, get_op_string,
}
use cos375_project.Utilities.Legal.{
  IsShown, is_unnamed, int_body-int, int_body-intimm, intw_body-intw, intw_body-intimmw,
  load_body-legal, store_body-legal, branch_body-legal, int_body-low, intw_body-low, joined_body,
  joined_front,
}
use cos375_project.Simulator.Decode.{
  legal_int, legal_intw, legal_load, legal_intimm, legal_intimmw, legal_store, legal_branch,
}

-- The mnemonics of the opcodes.
module _ (funct3 funct7 : ℕ) where
  pub int-IsShown : IsShown (legal_int funct3 funct7) (get_op_string Op.int funct3 funct7)
  unfolding get_op_string
  int-IsShown =
      rw int_body-int at
        (joined_body (int_body Op.int funct3 funct7) [] (int_body-low Op.int funct3 funct7))

  pub intimm-IsShown : IsShown (legal_intimm funct3 funct7) (get_op_string Op.intimm funct3 funct7)
  unfolding get_op_string
  intimm-IsShown = rw int_body-intimm at (
      joined_body (int_body Op.intimm funct3 funct7) (codes "i")
        (int_body-low Op.intimm funct3 funct7))

  pub intw-IsShown : IsShown (legal_intw funct3 funct7) (get_op_string Op.intw funct3 funct7)
  unfolding get_op_string
  intw-IsShown =
      rw intw_body-intw at
        (joined_body (intw_body funct3 funct7) (codes "w") (intw_body-low funct3 funct7))

  pub intimmw-IsShown :
      IsShown
        (legal_intimmw funct3 funct7 && not (is_unnamed funct3 funct7))
        (get_op_string Op.intimmw funct3 funct7)
  unfolding get_op_string
  intimmw-IsShown =
      rw (intw_body-intimmw funct3 funct7) at
        (joined_body (intw_body funct3 funct7) (codes "iw") (intw_body-low funct3 funct7))

  pub load-IsShown : IsShown (legal_load funct3) (get_op_string Op.load funct3 0)
  unfolding get_op_string
  load-IsShown = rw load_body-legal at (joined_front b'l' (load_body funct3) refl)

  pub store-IsShown : IsShown (legal_store funct3) (get_op_string Op.store funct3 0)
  unfolding get_op_string
  store-IsShown = rw store_body-legal at (joined_front b's' (store_body funct3) refl)

  pub branch-IsShown : IsShown (legal_branch funct3) (get_op_string Op.branch funct3 0)
  unfolding get_op_string
  branch-IsShown = rw branch_body-legal at (joined_front b'b' (branch_body funct3) refl)
