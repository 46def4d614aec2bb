-- ===== src/Utilities/Legal/Decoded.antt =====
-- What `simDecode` of src/simulator.cpp finds legal, opcode by opcode.
use cos375_project.Base.{ℕ, ◌≡◌, refl, Bool, true, false, if◌then◌else◌}
use cos375_project.Utilities.{extract_bits}
use cos375_project.Utilities.Op
use cos375_project.Simulator.{Instruction}
use cos375_project.Simulator.Decode.{
  decode_fields, decode_op, legal_int, legal_intw, legal_load, legal_intimm, legal_intimmw,
  legal_store, legal_branch,
}

if-legal :
    (b : Bool) (x y : Instruction)
    → x.is_legal ≡ true
    → y.is_legal ≡ false
    → (if b then x else y).is_legal ≡ b
if-legal true x y p q = p
if-legal false x y p q = q

module _ (inst : Instruction) where
  abbrev word : ℕ
  word = inst.instruction

  abbrev opcode : ℕ
  opcode = extract_bits inst.instruction 6 0

  abbrev funct3 : ℕ
  funct3 = extract_bits inst.instruction 14 12

  abbrev funct7 : ℕ
  funct7 = extract_bits inst.instruction 31 25

  -- What the decoder finds.
  unfoldable pub IsDecoded : Bool → Type 0
  IsDecoded legal = (decode_op (decode_fields inst)).is_legal ≡ legal

  pub int-IsDecoded : opcode ≡ Op.int → IsDecoded (legal_int funct3 funct7)
  unfolding IsDecoded decode_op decode_fields
  int-IsDecoded h = rw h (if-legal (legal_int funct3 funct7) _ _ refl refl)

  pub intw-IsDecoded : opcode ≡ Op.intw → IsDecoded (legal_intw funct3 funct7)
  unfolding IsDecoded decode_op decode_fields
  intw-IsDecoded h = rw h (if-legal (legal_intw funct3 funct7) _ _ refl refl)

  pub load-IsDecoded : opcode ≡ Op.load → IsDecoded (legal_load funct3)
  unfolding IsDecoded decode_op decode_fields
  load-IsDecoded h = rw h (if-legal (legal_load funct3) _ _ refl refl)

  pub intimm-IsDecoded : opcode ≡ Op.intimm → IsDecoded (legal_intimm funct3 funct7)
  unfolding IsDecoded decode_op decode_fields
  intimm-IsDecoded h = rw h (if-legal (legal_intimm funct3 funct7) _ _ refl refl)

  pub intimmw-IsDecoded : opcode ≡ Op.intimmw → IsDecoded (legal_intimmw funct3 funct7)
  unfolding IsDecoded decode_op decode_fields
  intimmw-IsDecoded h = rw h (if-legal (legal_intimmw funct3 funct7) _ _ refl refl)

  pub store-IsDecoded : opcode ≡ Op.store → IsDecoded (legal_store funct3)
  unfolding IsDecoded decode_op decode_fields
  store-IsDecoded h = rw h (if-legal (legal_store funct3) _ _ refl refl)

  pub branch-IsDecoded : opcode ≡ Op.branch → IsDecoded (legal_branch funct3)
  unfolding IsDecoded decode_op decode_fields
  branch-IsDecoded h = rw h (if-legal (legal_branch funct3) _ _ refl refl)

  pub jalr-IsDecoded : opcode ≡ Op.jalr → IsDecoded true
  unfolding IsDecoded decode_op decode_fields
  jalr-IsDecoded h = rw h refl

  pub jal-IsDecoded : opcode ≡ Op.jal → IsDecoded true
  unfolding IsDecoded decode_op decode_fields
  jal-IsDecoded h = rw h refl

  pub lui-IsDecoded : opcode ≡ Op.lui → IsDecoded true
  unfolding IsDecoded decode_op decode_fields
  lui-IsDecoded h = rw h refl

  pub auipc-IsDecoded : opcode ≡ Op.auipc → IsDecoded true
  unfolding IsDecoded decode_op decode_fields
  auipc-IsDecoded h = rw h refl
