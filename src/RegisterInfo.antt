-- ===== src/RegisterInfo.antt =====
-- src/RegisterInfo.h: the registers by their names, and the dump of all but `zero`. The union `regData`
-- of src/simulator.h makes the fields the entries of the array.
pub mod Laws
mod Tests
use cos375_project.Base.{ℕ, Bool, List, [], ◌∷◌, ◌++◌, if◌then◌else◌, get_or, Option, none, some}
use cos375_project.Text.{Text, codes, hex, pad_left, concat}
use cos375_project.Utilities.{Status, success, error}
use cos375_project.Utilities.Dumps.{endl}

pub record RegisterInfo : Type 0 where
  pub zero_reg : ℕ
  pub ra_reg : ℕ
  pub sp_reg : ℕ
  pub gp_reg : ℕ
  pub tp_reg : ℕ
  pub t0_reg : ℕ
  pub t1_reg : ℕ
  pub t2_reg : ℕ
  pub s0_reg : ℕ
  pub s1_reg : ℕ
  pub a0_reg : ℕ
  pub a1_reg : ℕ
  pub a2_reg : ℕ
  pub a3_reg : ℕ
  pub a4_reg : ℕ
  pub a5_reg : ℕ
  pub a6_reg : ℕ
  pub a7_reg : ℕ
  pub s2_reg : ℕ
  pub s3_reg : ℕ
  pub s4_reg : ℕ
  pub s5_reg : ℕ
  pub s6_reg : ℕ
  pub s7_reg : ℕ
  pub s8_reg : ℕ
  pub s9_reg : ℕ
  pub s10_reg : ℕ
  pub s11_reg : ℕ
  pub t3_reg : ℕ
  pub t4_reg : ℕ
  pub t5_reg : ℕ
  pub t6_reg : ℕ

-- The member `reg` of the union, for the member `registers`.
unfoldable pub reg_of : List ℕ → RegisterInfo
reg_of registers = record {
  zero_reg = get_or registers 0 0;
  ra_reg = get_or registers 1 0;
  sp_reg = get_or registers 2 0;
  gp_reg = get_or registers 3 0;
  tp_reg = get_or registers 4 0;
  t0_reg = get_or registers 5 0;
  t1_reg = get_or registers 6 0;
  t2_reg = get_or registers 7 0;
  s0_reg = get_or registers 8 0;
  s1_reg = get_or registers 9 0;
  a0_reg = get_or registers 10 0;
  a1_reg = get_or registers 11 0;
  a2_reg = get_or registers 12 0;
  a3_reg = get_or registers 13 0;
  a4_reg = get_or registers 14 0;
  a5_reg = get_or registers 15 0;
  a6_reg = get_or registers 16 0;
  a7_reg = get_or registers 17 0;
  s2_reg = get_or registers 18 0;
  s3_reg = get_or registers 19 0;
  s4_reg = get_or registers 20 0;
  s5_reg = get_or registers 21 0;
  s6_reg = get_or registers 22 0;
  s7_reg = get_or registers 23 0;
  s8_reg = get_or registers 24 0;
  s9_reg = get_or registers 25 0;
  s10_reg = get_or registers 26 0;
  s11_reg = get_or registers 27 0;
  t3_reg = get_or registers 28 0;
  t4_reg = get_or registers 29 0;
  t5_reg = get_or registers 30 0;
  t6_reg = get_or registers 31 0;
}

abbrev reg_output_width : ℕ
reg_output_width = 8

unfoldable pub reg_line : Text → ℕ → Text
reg_line name value =
    codes "$" ++ name ++ codes " = 0x" ++ pad_left reg_output_width b'0' (hex value) ++ endl

abbrev pub rule : Text
rule = codes "---------------------" ++ endl

unfoldable pub register_pieces : RegisterInfo → List Text
register_pieces reg =
    rule
    ∷ codes "Begin Register Values"
    ∷ endl
    ∷ rule
    ∷ reg_line (codes "ra") reg.ra_reg
    ∷ reg_line (codes "sp") reg.sp_reg
    ∷ reg_line (codes "gp") reg.gp_reg
    ∷ reg_line (codes "tp") reg.tp_reg
    ∷ endl
    ∷ reg_line (codes "t0") reg.t0_reg
    ∷ reg_line (codes "t1") reg.t1_reg
    ∷ reg_line (codes "t2") reg.t2_reg
    ∷ endl
    ∷ reg_line (codes "s0") reg.s0_reg
    ∷ reg_line (codes "s1") reg.s1_reg
    ∷ endl
    ∷ reg_line (codes "a0") reg.a0_reg
    ∷ reg_line (codes "a1") reg.a1_reg
    ∷ reg_line (codes "a2") reg.a2_reg
    ∷ reg_line (codes "a3") reg.a3_reg
    ∷ reg_line (codes "a4") reg.a4_reg
    ∷ reg_line (codes "a5") reg.a5_reg
    ∷ reg_line (codes "a6") reg.a6_reg
    ∷ reg_line (codes "a7") reg.a7_reg
    ∷ endl
    ∷ reg_line (codes "s2") reg.s2_reg
    ∷ reg_line (codes "s3") reg.s3_reg
    ∷ reg_line (codes "s4") reg.s4_reg
    ∷ reg_line (codes "s5") reg.s5_reg
    ∷ reg_line (codes "s6") reg.s6_reg
    ∷ reg_line (codes "s7") reg.s7_reg
    ∷ reg_line (codes "s8") reg.s8_reg
    ∷ reg_line (codes "s9") reg.s9_reg
    ∷ reg_line (codes "s10") reg.s10_reg
    ∷ reg_line (codes "s11") reg.s11_reg
    ∷ endl
    ∷ reg_line (codes "t3") reg.t3_reg
    ∷ reg_line (codes "t4") reg.t4_reg
    ∷ reg_line (codes "t5") reg.t5_reg
    ∷ reg_line (codes "t6") reg.t6_reg
    ∷ rule
    ∷ codes "End Register Values"
    ∷ endl
    ∷ rule
    ∷ []

unfoldable pub register_text : RegisterInfo → Text
unfolding register_pieces
register_text reg = concat (register_pieces reg)

-- The status, and what the file holds then; `opened` tells whether it could be opened.
unfoldable pub dump_register_state : RegisterInfo → Bool → Status × Option Text
unfolding register_text
dump_register_state reg opened =
    if opened then (success, some (register_text reg)) else (error, none)
