-- ===== src/Simulator/Signals.antt =====
-- The control signals that `simDecode` (src/simulator.cpp) sets.
use cos375_project.Base.{ℕ, ◌≡◌, refl, arith, Bool, true, false, not, ◌&&◌, ◌||◌, ◌==◌, if-keeps}
use cos375_project.Utilities.Op
use cos375_project.Simulator.{Instruction, blank}
use cos375_project.Simulator.Decode.{
  decode_fields, decode_op, legal_int, legal_intw, legal_load, legal_intimm, legal_intimmw,
  legal_store, legal_branch, halt_word, nop_word, sim_decode,
}

-- Signals that fit together: an instruction loads, stores or computes, and only what is legal writes.
pub record IsConsistent (inst : Instruction) : Type 0 where
  pub load_or_store : (inst.reads_mem && inst.writes_mem) ≡ false
  pub memory_or_arith : ((inst.reads_mem || inst.writes_mem) && inst.does_arith_logic) ≡ false
  pub writes_rd : inst.writes_rd ≡ (inst.reads_mem || inst.does_arith_logic)
  pub reads_rs1 : (inst.reads_rs2 && not inst.reads_rs1) ≡ false
  pub address : ((inst.reads_mem || inst.writes_mem) && not inst.reads_rs1) ≡ false
  pub stored_data : (inst.writes_mem && not inst.reads_rs2) ≡ false
  pub legal : ((inst.writes_rd || inst.writes_mem) && not inst.is_legal) ≡ false

-- No signal at all.
pub record IsQuiescent (inst : Instruction) : Type 0 where
  pub reads_mem : inst.reads_mem ≡ false
  pub writes_mem : inst.writes_mem ≡ false
  pub does_arith_logic : inst.does_arith_logic ≡ false
  pub writes_rd : inst.writes_rd ≡ false
  pub reads_rs1 : inst.reads_rs1 ≡ false
  pub reads_rs2 : inst.reads_rs2 ≡ false

quiescent-IsConsistent : (inst : Instruction) → IsQuiescent inst → IsConsistent inst
quiescent-IsConsistent inst q = ground arith

-- The signals of each class of instructions.
module _ (inst : Instruction) (h : inst.is_legal ≡ true) (q : IsQuiescent inst) where
  refused : IsConsistent (record inst { is_legal = false })
  refused = ground arith

  two_operands : IsConsistent (record inst {
    does_arith_logic = true;
    writes_rd = true;
    reads_rs1 = true;
    reads_rs2 = true;
  })
  two_operands = ground arith

  one_operand :
      IsConsistent (record inst { does_arith_logic = true; writes_rd = true; reads_rs1 = true })
  one_operand = ground arith

  load : IsConsistent (record inst { reads_rs1 = true; writes_rd = true; reads_mem = true })
  load = ground arith

  store : IsConsistent (record inst { reads_rs1 = true; reads_rs2 = true; writes_mem = true })
  store = ground arith

  branch : IsConsistent (record inst { reads_rs1 = true; reads_rs2 = true })
  branch = ground arith

  indirect_jump :
      IsConsistent (record inst {
        is_legal = true;
        does_arith_logic = true;
        writes_rd = true;
        reads_rs1 = true;
      })
  indirect_jump = ground arith

  upper : IsConsistent (record inst { is_legal = true; does_arith_logic = true; writes_rd = true })
  upper = ground arith

  decode_op-IsConsistent : IsConsistent (decode_op inst)
  unfolding decode_op
  decode_op-IsConsistent =
      let P : Instruction → Type 0 = IsConsistent in
      let is : ℕ → Bool = (λ op. inst.opcode == op) in
      if-keeps P (is Op.int) _ _
        (if-keeps P (legal_int inst.funct3 inst.funct7) _ _ two_operands refused)
        (if-keeps P (is Op.intw) _ _
          (if-keeps P (legal_intw inst.funct3 inst.funct7) _ _ two_operands refused)
          (if-keeps P (is Op.load) _ _ (if-keeps P (legal_load inst.funct3) _ _ load refused) (
            if-keeps P (is Op.intimm) _ _
              (if-keeps P (legal_intimm inst.funct3 inst.funct7) _ _ one_operand refused)
              (if-keeps P (is Op.intimmw) _ _
                (if-keeps P (legal_intimmw inst.funct3 inst.funct7) _ _ one_operand refused)
                (if-keeps P (is Op.jalr) _ _ indirect_jump (
                  if-keeps P (is Op.store) _ _
                    (if-keeps P (legal_store inst.funct3) _ _ store refused)
                    (if-keeps P (is Op.branch) _ _
                      (if-keeps P (legal_branch inst.funct3) _ _ branch refused)
                      (if-keeps P (is Op.auipc || is Op.lui || is Op.jal) _ _ upper refused))))))))

no_signals :
    (inst : Instruction)
    → inst.reads_mem ≡ false
    → inst.writes_mem ≡ false
    → inst.does_arith_logic ≡ false
    → inst.writes_rd ≡ false
    → inst.reads_rs1 ≡ false
    → inst.reads_rs2 ≡ false
    → IsQuiescent inst
no_signals inst m s a w r r' = record {
  reads_mem = m;
  writes_mem = s;
  does_arith_logic = a;
  writes_rd = w;
  reads_rs1 = r;
  reads_rs2 = r';
}

-- The signals that decoding any fetched word sets fit together: an instruction does at most one of
-- loading, storing and computing, writes a register exactly where it loads or computes, reads rs1
-- for an address and rs2 for a store's data, and writes registers or memory only where it is legal.
pub sim_decode-IsConsistent :
    (pc word : ℕ) → IsConsistent (sim_decode (record blank { pc = pc; instruction = word }))
unfolding sim_decode decode_fields
sim_decode-IsConsistent pc word =
    let fields : Instruction = decode_fields (record blank { pc = pc; instruction = word }) in
    if-keeps IsConsistent (word == halt_word) _ _
      (quiescent-IsConsistent (record fields { is_halt = true })
        (no_signals (record fields { is_halt = true }) refl refl refl refl refl refl))
      (if-keeps IsConsistent (word == nop_word) _ _
        (quiescent-IsConsistent (record fields { is_nop = true })
          (no_signals (record fields { is_nop = true }) refl refl refl refl refl refl))
        (decode_op-IsConsistent fields refl (no_signals fields refl refl refl refl refl refl)))
