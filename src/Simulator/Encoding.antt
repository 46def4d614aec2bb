-- ===== src/Simulator/Encoding.antt =====
-- `simDecode` of src/simulator.cpp against the layout of an instruction word.
use cos375_project.Base.{ℕ, ◌+◌, ◌*◌, ◌^◌, ◌<◌, ◌≡◌, refl, ◌∙◌, arith, if-keeps, ◌==◌}
use cos375_project.Utilities.{extract_bits}
use cos375_project.Utilities.Fields.{extract_bits_lem}
use cos375_project.Simulator.{Instruction}
use cos375_project.Simulator.Decode.{decode_fields, decode_op, halt_word, nop_word, sim_decode}

-- The fields of a word, each within its width.
pub record Fields : Type 0 where
  pub opcode : ℕ
  pub rd : ℕ
  pub funct3 : ℕ
  pub rs1 : ℕ
  pub rs2 : ℕ
  pub funct7 : ℕ

pub record IsEncodable (f : Fields) : Type 0 where
  pub opcode : f.opcode < 2 ^ 7
  pub rd : f.rd < 2 ^ 5
  pub funct3 : f.funct3 < 2 ^ 3
  pub rs1 : f.rs1 < 2 ^ 5
  pub rs2 : f.rs2 < 2 ^ 5
  pub funct7 : f.funct7 < 2 ^ 7

-- The word of the R type with these fields.
abbrev pub encode : Fields → ℕ
encode f =
    f.opcode
    + f.rd * 2 ^ 7
    + f.funct3 * 2 ^ 12
    + f.rs1 * 2 ^ 15
    + f.rs2 * 2 ^ 20
    + f.funct7 * 2 ^ 25

abbrev pub fields_of : Instruction → Fields
fields_of inst = record {
  opcode = inst.opcode;
  rd = inst.rd;
  funct3 = inst.funct3;
  rs1 = inst.rs1;
  rs2 = inst.rs2;
  funct7 = inst.funct7;
}

decode_op-fields : (inst : Instruction) → fields_of (decode_op inst) ≡ fields_of inst
unfolding decode_op
decode_op-fields inst = ground arith

sim_decode-fields :
    (inst : Instruction) → fields_of (sim_decode inst) ≡ fields_of (decode_fields inst)
unfolding sim_decode
sim_decode-fields inst =
    let P : Instruction → Type 0 = (λ i. fields_of i ≡ fields_of (decode_fields inst)) in
    if-keeps P (inst.instruction == halt_word) _ _ refl
      (if-keeps P (inst.instruction == nop_word) _ _ refl (decode_op-fields (decode_fields inst)))

pub decode_fields-encode :
    (inst : Instruction) (f : Fields)
    → inst.instruction ≡ encode f
    → IsEncodable f
    → fields_of (decode_fields inst) ≡ f
unfolding decode_fields
decode_fields-encode inst f e fits =
    let w = inst.instruction in
    let opcode : extract_bits w 6 0 ≡ f.opcode = extract_bits_lem w 6 0 ∙ omega arith in
    let rd : extract_bits w 11 7 ≡ f.rd = extract_bits_lem w 11 7 ∙ omega arith in
    let funct3 : extract_bits w 14 12 ≡ f.funct3 = extract_bits_lem w 14 12 ∙ omega arith in
    let rs1 : extract_bits w 19 15 ≡ f.rs1 = extract_bits_lem w 19 15 ∙ omega arith in
    let rs2 : extract_bits w 24 20 ≡ f.rs2 = extract_bits_lem w 24 20 ∙ omega arith in
    let funct7 : extract_bits w 31 25 ≡ f.funct7 = extract_bits_lem w 31 25 ∙ omega arith in
    λ i. record {
      opcode = opcode i;
      rd = rd i;
      funct3 = funct3 i;
      rs1 = rs1 i;
      rs2 = rs2 i;
      funct7 = funct7 i;
    }

-- Decoding the word of fields that fit their widths reads back the same fields, whatever the
-- signals become.
pub sim_decode-encode :
    (inst : Instruction) (f : Fields)
    → inst.instruction ≡ encode f
    → IsEncodable f
    → fields_of (sim_decode inst) ≡ f
sim_decode-encode inst f e fits = sim_decode-fields inst ∙ decode_fields-encode inst f e fits
