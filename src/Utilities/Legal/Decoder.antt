-- ===== src/Utilities/Legal/Decoder.antt =====
-- `printInstr` of src/Utilities.cpp shows a word as illegal where `simDecode` of src/simulator.cpp finds
-- it illegal.
use cos375_project.Base.{
  ℕ, ◌≡◌, refl, Bool, true, false, not, ◌&&◌, ◌||◌, ◌==◌, ==_iff, Bool-cases, inl, inr,
}
use cos375_project.Text.{same_text}
use cos375_project.Utilities.{extract_bits}
use cos375_project.Utilities.Op
use cos375_project.Utilities.OpString.{get_op_string}
use cos375_project.Utilities.Disasm.{instr_text, halt_inst, nop_inst}
use cos375_project.Utilities.Legal.{IsShown, is_unnamed}
use cos375_project.Utilities.Legal.Shown.{
  shown_illegal, handle_i_and_r-shown, handle_l_and_s-shown, handle_branch-shown,
  handle_special-shown,
}
use cos375_project.Simulator.{Instruction}
use cos375_project.Simulator.Decode.{
  decode_fields, decode_op, sim_decode, legal_int, legal_intw, legal_load, legal_intimm,
  legal_intimmw, legal_store, legal_branch,
}
use cos375_project.Utilities.Legal.Mnemonics.{
  int-IsShown, intimm-IsShown, intw-IsShown, intimmw-IsShown, load-IsShown, store-IsShown,
  branch-IsShown,
}
use cos375_project.Utilities.Legal.Decoded.{
  IsDecoded, int-IsDecoded, intw-IsDecoded, load-IsDecoded, intimm-IsDecoded, intimmw-IsDecoded,
  store-IsDecoded, branch-IsDecoded, jalr-IsDecoded, jal-IsDecoded, lui-IsDecoded, auipc-IsDecoded,
}

not_both : (a b : Bool) → not (a && not b) ≡ (not a || b)
not_both true true = refl
not_both true false = refl
not_both false b = refl

-- The words of such an addition.
abbrev pub is_addiw : ℕ → Bool
is_addiw w =
    extract_bits w 6 0 == Op.intimmw && is_unnamed (extract_bits w 14 12) (extract_bits w 31 25)

module _ (inst : Instruction) where
  abbrev word : ℕ
  word = inst.instruction

  abbrev opcode : ℕ
  opcode = extract_bits inst.instruction 6 0

  abbrev funct3 : ℕ
  funct3 = extract_bits inst.instruction 14 12

  abbrev funct7 : ℕ
  funct7 = extract_bits inst.instruction 31 25

  -- A word that is neither HALT nor NOP.
  module _ (other : (word == halt_inst) ≡ false) (more : (word == nop_inst) ≡ false) where
    Agrees : Type 0
    Agrees =
        same_text (instr_text word) shown_illegal
        ≡ (not (sim_decode inst).is_legal || is_addiw word)

    legal-Agrees :
        (legal : Bool)
        → same_text (instr_text word) shown_illegal ≡ not legal
        → IsDecoded inst legal
        → (opcode == Op.intimmw) ≡ false
        → Agrees
    unfolding Agrees IsDecoded sim_decode
    legal-Agrees true shown decoded n = rw (other, more, shown, decoded, is_addiw, n) refl
    legal-Agrees false shown decoded n = rw (other, more, shown, decoded) refl

    int-Agrees : opcode ≡ Op.int → Agrees
    unfolding instr_text get_op_string IsShown
    int-Agrees h =
        legal-Agrees (legal_int funct3 funct7)
          (rw (other, more, h)
            (handle_i_and_r-shown word (legal_int funct3 funct7)
              (rw h (int-IsShown funct3 funct7))))
          (int-IsDecoded inst h) (rw h refl)

    intw-Agrees : opcode ≡ Op.intw → Agrees
    unfolding instr_text get_op_string IsShown
    intw-Agrees h =
        legal-Agrees (legal_intw funct3 funct7)
          (rw (other, more, h)
            (handle_i_and_r-shown word (legal_intw funct3 funct7)
              (rw h (intw-IsShown funct3 funct7))))
          (intw-IsDecoded inst h) (rw h refl)

    load-Agrees : opcode ≡ Op.load → Agrees
    unfolding instr_text get_op_string IsShown
    load-Agrees h =
        legal-Agrees (legal_load funct3)
          (rw (other, more, h)
            (handle_l_and_s-shown word (legal_load funct3) (rw h (load-IsShown funct3 funct7))))
          (load-IsDecoded inst h) (rw h refl)

    intimm-Agrees : opcode ≡ Op.intimm → Agrees
    unfolding instr_text get_op_string IsShown
    intimm-Agrees h =
        legal-Agrees (legal_intimm funct3 funct7)
          (rw (other, more, h)
            (handle_i_and_r-shown word (legal_intimm funct3 funct7)
              (rw h (intimm-IsShown funct3 funct7))))
          (intimm-IsDecoded inst h) (rw h refl)

    store-Agrees : opcode ≡ Op.store → Agrees
    unfolding instr_text get_op_string IsShown
    store-Agrees h =
        legal-Agrees (legal_store funct3)
          (rw (other, more, h)
            (handle_l_and_s-shown word (legal_store funct3) (rw h (store-IsShown funct3 funct7))))
          (store-IsDecoded inst h) (rw h refl)

    branch-Agrees : opcode ≡ Op.branch → Agrees
    unfolding instr_text get_op_string IsShown
    branch-Agrees h =
        legal-Agrees (legal_branch funct3)
          (rw (other, more, h)
            (handle_branch-shown word (legal_branch funct3) (rw h (branch-IsShown funct3 funct7))))
          (branch-IsDecoded inst h) (rw h refl)

    jalr-Agrees : opcode ≡ Op.jalr → Agrees
    unfolding instr_text get_op_string IsShown
    jalr-Agrees h =
        legal-Agrees true (rw (other, more, h) (handle_i_and_r-shown word true (rw h refl)))
          (jalr-IsDecoded inst h) (rw h refl)

    jal-Agrees : opcode ≡ Op.jal → Agrees
    unfolding instr_text get_op_string IsShown
    jal-Agrees h =
        legal-Agrees true (rw (other, more, h) (handle_special-shown word true (rw h refl)))
          (jal-IsDecoded inst h) (rw h refl)

    lui-Agrees : opcode ≡ Op.lui → Agrees
    unfolding instr_text get_op_string IsShown
    lui-Agrees h =
        legal-Agrees true (rw (other, more, h) (handle_special-shown word true (rw h refl)))
          (lui-IsDecoded inst h) (rw h refl)

    auipc-Agrees : opcode ≡ Op.auipc → Agrees
    unfolding instr_text get_op_string IsShown
    auipc-Agrees h =
        legal-Agrees true (rw (other, more, h) (handle_special-shown word true (rw h refl)))
          (auipc-IsDecoded inst h) (rw h refl)

    intimmw-Agrees : opcode ≡ Op.intimmw → Agrees
    unfolding Agrees instr_text get_op_string IsDecoded sim_decode
    intimmw-Agrees h =
        let legal = legal_intimmw funct3 funct7 in
        let named = not (is_unnamed funct3 funct7) in
        let shown =
          handle_i_and_r-shown word (legal && named) (rw h (intimmw-IsShown funct3 funct7)) in
        rw (other, more, intimmw-IsDecoded inst h, is_addiw, h, shown)
          (not_both legal (is_unnamed funct3 funct7))

    unknown-Agrees :
        (opcode == Op.int) ≡ false
        → (opcode == Op.intw) ≡ false
        → (opcode == Op.load) ≡ false
        → (opcode == Op.intimm) ≡ false
        → (opcode == Op.intimmw) ≡ false
        → (opcode == Op.jalr) ≡ false
        → (opcode == Op.store) ≡ false
        → (opcode == Op.branch) ≡ false
        → (opcode == Op.auipc) ≡ false
        → (opcode == Op.lui) ≡ false
        → (opcode == Op.jal) ≡ false
        → Agrees
    unfolding Agrees instr_text sim_decode decode_op decode_fields same_text
    unknown-Agrees n1 n2 n3 n4 n5 n6 n7 n8 n9 n10 n11 =
        rw (other, more, n1, n2, n3, n4, n5, n6, n7, n8, n9, n10, n11) refl

    known-Agrees : Agrees
    known-Agrees = elim (Bool-cases (opcode == Op.int)) [
      | inl e1 ↦ int-Agrees ((==_iff opcode Op.int).0 e1)
      | inr n1 ↦ elim (Bool-cases (opcode == Op.intw)) [
        | inl e2 ↦ intw-Agrees ((==_iff opcode Op.intw).0 e2)
        | inr n2 ↦ elim (Bool-cases (opcode == Op.load)) [
          | inl e3 ↦ load-Agrees ((==_iff opcode Op.load).0 e3)
          | inr n3 ↦ elim (Bool-cases (opcode == Op.intimm)) [
            | inl e4 ↦ intimm-Agrees ((==_iff opcode Op.intimm).0 e4)
            | inr n4 ↦ elim (Bool-cases (opcode == Op.intimmw)) [
              | inl e5 ↦ intimmw-Agrees ((==_iff opcode Op.intimmw).0 e5)
              | inr n5 ↦ elim (Bool-cases (opcode == Op.jalr)) [
                | inl e6 ↦ jalr-Agrees ((==_iff opcode Op.jalr).0 e6)
                | inr n6 ↦ elim (Bool-cases (opcode == Op.store)) [
                  | inl e7 ↦ store-Agrees ((==_iff opcode Op.store).0 e7)
                  | inr n7 ↦ elim (Bool-cases (opcode == Op.branch)) [
                    | inl e8 ↦ branch-Agrees ((==_iff opcode Op.branch).0 e8)
                    | inr n8 ↦ elim (Bool-cases (opcode == Op.auipc)) [
                      | inl e9 ↦ auipc-Agrees ((==_iff opcode Op.auipc).0 e9)
                      | inr n9 ↦ elim (Bool-cases (opcode == Op.lui)) [
                        | inl e10 ↦ lui-Agrees ((==_iff opcode Op.lui).0 e10)
                        | inr n10 ↦ elim (Bool-cases (opcode == Op.jal)) [
                          | inl e11 ↦ jal-Agrees ((==_iff opcode Op.jal).0 e11)
                          | inr n11 ↦ unknown-Agrees n1 n2 n3 n4 n5 n6 n7 n8 n9 n10 n11
                        ]
                      ]
                    ]
                  ]
                ]
              ]
            ]
          ]
        ]
      ]
    ]

-- The disassembler shows a word as ILLEGAL exactly where the decoder finds it illegal, or where it
-- is an addition of opcode OP_INTIMMW whose upper seven bits are neither 0 nor 32.
pub instr_text-is_legal :
    (inst : Instruction)
    → same_text (instr_text inst.instruction) shown_illegal
      ≡ (not (sim_decode inst).is_legal || is_addiw inst.instruction)
unfolding instr_text sim_decode decode_fields Agrees same_text
instr_text-is_legal inst = elim (Bool-cases (inst.instruction == halt_inst)) [
  | inl e ↦ rw ((==_iff inst.instruction halt_inst).0 e) (unfold extract_bits in refl)
  | inr other ↦ elim (Bool-cases (inst.instruction == nop_inst)) [
    | inl e ↦ rw ((==_iff inst.instruction nop_inst).0 e) (unfold extract_bits in refl)
    | inr more ↦ known-Agrees inst other more
  ]
]
