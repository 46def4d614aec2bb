-- ===== src/Utilities/Offsets.antt =====
-- The offsets that the disassembler of src/Utilities.cpp shows, against the layout of the types S and B.
use cos375_project.Base.{ℕ, ◌/◌, ◌%◌, ◌^◌, ◌<◌, ◌≡◌, refl, ◌∙◌, ap, arith, Bool, true, false, ◌++◌}
use cos375_project.Text.{codes, dec_signed, same_text}
use cos375_project.Utilities.{extract_bits}
use cos375_project.Utilities.Op
use cos375_project.Utilities.Fields.{signed, int64-sext64}
use cos375_project.Utilities.OpString.{illegal_text, get_op_string}
use cos375_project.Utilities.Disasm.{reg_name, handle_l_and_s, handle_branch}
use cos375_project.Utilities.Legal.{IsShown, same_text-illegal}
use cos375_project.Utilities.Legal.Mnemonics.{store-IsShown, branch-IsShown}
use cos375_project.Simulator.{blank}
use cos375_project.Simulator.Decode.{decode_fields, legal_store, legal_branch}
use cos375_project.Simulator.Encoding.{Fields, IsEncodable, encode, fields_of, decode_fields-encode}
use cos375_project.Simulator.Immediates.{b_high, b_low, store_imm_lem, branch_imm_lem}
use cos375_project.Simulator.MemAccess.{store_imm}
use cos375_project.Simulator.NextPc.{branch_imm}

-- The word of an instruction that holds an offset in `funct7` and `rd`.
abbrev pub split_fields : ℕ → ℕ → ℕ → ℕ → ℕ → ℕ → Fields
split_fields opcode funct3 rs1 rs2 high low = record {
  opcode = opcode;
  rd = low;
  funct3 = funct3;
  rs1 = rs1;
  rs2 = rs2;
  funct7 = high;
}

module _ (f : Fields) (h : IsEncodable f) where
  all_fields : fields_of (decode_fields (record blank { instruction = encode f })) ≡ f
  all_fields = decode_fields-encode (record blank { instruction = encode f }) f refl h

  opcode_of : extract_bits (encode f) 6 0 ≡ f.opcode
  unfolding decode_fields
  opcode_of = ap (λ g. g.opcode) all_fields

  rd_of : extract_bits (encode f) 11 7 ≡ f.rd
  unfolding decode_fields
  rd_of = ap (λ g. g.rd) all_fields

  funct3_of : extract_bits (encode f) 14 12 ≡ f.funct3
  unfolding decode_fields
  funct3_of = ap (λ g. g.funct3) all_fields

  rs1_of : extract_bits (encode f) 19 15 ≡ f.rs1
  unfolding decode_fields
  rs1_of = ap (λ g. g.rs1) all_fields

  rs2_of : extract_bits (encode f) 24 20 ≡ f.rs2
  unfolding decode_fields
  rs2_of = ap (λ g. g.rs2) all_fields

  funct7_of : extract_bits (encode f) 31 25 ≡ f.funct7
  unfolding decode_fields
  funct7_of = ap (λ g. g.funct7) all_fields

  fields_shown :
      (legal : Bool)
      → legal ≡ true
      → IsShown legal (get_op_string f.opcode f.funct3 0)
      → same_text (get_op_string f.opcode f.funct3 0) illegal_text ≡ false
  fields_shown legal e shown = same_text-illegal legal _ shown ∙ rw e refl

-- The disassembler shows the word of a legal store, its offset below 2^12 split into funct7 and rd
-- as the S type does, as the mnemonic, the register of the data, and the offset as a signed number
-- in front of the register of the address.
pub handle_l_and_s-store :
    (funct3 rs1 rs2 offset : ℕ)
    → funct3 < 2 ^ 3
    → rs1 < 2 ^ 5
    → rs2 < 2 ^ 5
    → offset < 2 ^ 12
    → legal_store funct3 ≡ true
    → handle_l_and_s (encode (split_fields Op.store funct3 rs1 rs2 (offset / 32) (offset % 32)))
      ≡ codes " "
        ++ get_op_string Op.store funct3 0
        ++ codes " "
        ++ reg_name rs2
        ++ codes ", "
        ++ dec_signed (signed 11 offset)
        ++ (codes "(" ++ reg_name rs1 ++ codes ")")
unfolding handle_l_and_s store_imm
handle_l_and_s-store funct3 rs1 rs2 offset h3 h1 h2 small legal =
    let f = split_fields Op.store funct3 rs1 rs2 (offset / 32) (offset % 32) in
    let e : IsEncodable f = record {
      opcode = omega arith;
      rd = omega arith;
      funct3 = h3;
      rs1 = h1;
      rs2 = h2;
      funct7 = omega arith;
    } in
    let shown = fields_shown f e (legal_store funct3) legal (store-IsShown funct3 0) in
    rw
      (
        opcode_of f e,
        rd_of f e,
        funct3_of f e,
        rs1_of f e,
        rs2_of f e,
        funct7_of f e,
        shown,
        store_imm_lem offset small,
        int64-sext64 11 offset small (omega arith),
      )
      refl

-- The disassembler shows the word of a legal branch, its even offset below 2^13 split into funct7
-- and rd as the B type does, as the mnemonic, the two registers, and the offset as a signed number.
pub handle_branch-offset :
    (funct3 rs1 rs2 offset : ℕ)
    → funct3 < 2 ^ 3
    → rs1 < 2 ^ 5
    → rs2 < 2 ^ 5
    → offset < 2 ^ 13
    → offset % 2 ≡ 0
    → legal_branch funct3 ≡ true
    → handle_branch (encode (split_fields Op.branch funct3 rs1 rs2 (b_high offset) (b_low offset)))
      ≡ codes " "
        ++ get_op_string Op.branch funct3 0
        ++ codes " "
        ++ reg_name rs1
        ++ codes ", "
        ++ reg_name rs2
        ++ codes ", "
        ++ dec_signed (signed 12 offset)
unfolding handle_branch branch_imm
handle_branch-offset funct3 rs1 rs2 offset h3 h1 h2 small even legal =
    let f = split_fields Op.branch funct3 rs1 rs2 (b_high offset) (b_low offset) in
    let e : IsEncodable f = record {
      opcode = omega arith;
      rd = omega arith;
      funct3 = h3;
      rs1 = h1;
      rs2 = h2;
      funct7 = omega arith;
    } in
    let shown = fields_shown f e (legal_branch funct3) legal (branch-IsShown funct3 0) in
    rw
      (
        opcode_of f e,
        rd_of f e,
        funct3_of f e,
        rs1_of f e,
        rs2_of f e,
        funct7_of f e,
        shown,
        branch_imm_lem offset small even,
        int64-sext64 12 offset small (omega arith),
      )
      refl
