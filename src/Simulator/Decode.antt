-- ===== src/Simulator/Decode.antt =====
-- `simFetch`, `simDecode` and `simOperandCollection` of src/simulator.cpp.
use cos375_project.Base.{
  ℕ, Bool, true, false, ◌&&◌, ◌||◌, List, u32, ◌>>>◌, ◌==◌, if◌then◌else◌, get_or, set,
}
use cos375_project.Utilities.{extract_bits}
use cos375_project.Utilities.Op
use cos375_project.Utilities.Funct3
use cos375_project.Utilities.Funct7
use cos375_project.Utilities.UpperImm
use cos375_project.MemoryStore.{MemoryStore, Ret, zero_ret, einval, get_mem_value, word_size}
use cos375_project.Simulator.{Instruction, blank}

-- What `simFetch` makes of the word that it read.
unfoldable pub fetched : Instruction → Ret × ℕ → Instruction
fetched inst (zero_ret, value) = record inst { instruction = u32 value }
fetched inst (einval, value) = record inst { mem_exception = true; instruction = 0 }

unfoldable pub sim_fetch : ℕ → MemoryStore → Instruction
unfolding fetched
sim_fetch pc my_mem = fetched (record blank { pc = pc }) (get_mem_value my_mem pc 0 word_size)

-- The fields of the encoding.
unfoldable pub decode_fields : Instruction → Instruction
decode_fields inst =
    let w = inst.instruction in
    record inst {
      opcode = extract_bits w 6 0;
      rd = extract_bits w 11 7;
      funct3 = extract_bits w 14 12;
      rs1 = extract_bits w 19 15;
      rs2 = extract_bits w 24 20;
      funct7 = extract_bits w 31 25;
      is_legal = true;
    }

-- The conditions of the cases of the `switch`.
unfoldable pub legal_int : ℕ → ℕ → Bool
legal_int funct3 funct7 =
    (funct3 == Funct3.add && (funct7 == Funct7.add || funct7 == Funct7.sub))
    || funct3 == Funct3.sll
    || funct3 == Funct3.slt
    || funct3 == Funct3.sltu
    || funct3 == Funct3.xor
    || (funct3 == Funct3.sr && (funct7 >>> 1 == UpperImm.arith || funct7 >>> 1 == UpperImm.logical))
    || funct3 == Funct3.or
    || funct3 == Funct3.and

unfoldable pub legal_intw : ℕ → ℕ → Bool
legal_intw funct3 funct7 =
    (funct3 == Funct3.add && (funct7 == Funct7.add || funct7 == Funct7.sub))
    || funct3 == Funct3.sll
    || (funct3 == Funct3.sr && (funct7 == Funct7.arith || funct7 == Funct7.logical))

unfoldable pub legal_load : ℕ → Bool
legal_load funct3 =
    funct3 == Funct3.b
    || funct3 == Funct3.h
    || funct3 == Funct3.w
    || funct3 == Funct3.d
    || funct3 == Funct3.bu
    || funct3 == Funct3.hu
    || funct3 == Funct3.wu

unfoldable pub legal_intimm : ℕ → ℕ → Bool
legal_intimm funct3 funct7 =
    funct3 == Funct3.add
    || funct3 == Funct3.sll
    || funct3 == Funct3.slt
    || funct3 == Funct3.sltu
    || funct3 == Funct3.xor
    || (funct3 == Funct3.sr && (funct7 >>> 1 == UpperImm.arith || funct7 >>> 1 == UpperImm.logical))
    || funct3 == Funct3.or
    || funct3 == Funct3.and

unfoldable pub legal_intimmw : ℕ → ℕ → Bool
legal_intimmw funct3 funct7 =
    funct3 == Funct3.add
    || funct3 == Funct3.sll
    || (funct3 == Funct3.sr && (funct7 == Funct7.arith || funct7 == Funct7.logical))

unfoldable pub legal_store : ℕ → Bool
legal_store funct3 =
    funct3 == Funct3.b || funct3 == Funct3.h || funct3 == Funct3.w || funct3 == Funct3.d

unfoldable pub legal_branch : ℕ → Bool
legal_branch funct3 =
    funct3 == Funct3.beq
    || funct3 == Funct3.bne
    || funct3 == Funct3.blt
    || funct3 == Funct3.bge
    || funct3 == Funct3.bltu
    || funct3 == Funct3.bgeu

-- The `switch` on the opcode: the control signals.
unfoldable pub decode_op : Instruction → Instruction
decode_op inst =
    let illegal : Instruction = record inst { is_legal = false } in
    if inst.opcode == Op.int
    then (if legal_int inst.funct3 inst.funct7
        then record inst {
          does_arith_logic = true;
          writes_rd = true;
          reads_rs1 = true;
          reads_rs2 = true;
        }
        else illegal)
    else (if inst.opcode == Op.intw
        then (if legal_intw inst.funct3 inst.funct7
            then record inst {
              does_arith_logic = true;
              writes_rd = true;
              reads_rs1 = true;
              reads_rs2 = true;
            }
            else illegal)
        else (if inst.opcode == Op.load
            then (if legal_load inst.funct3
                then record inst { reads_rs1 = true; writes_rd = true; reads_mem = true }
                else illegal)
            else (if inst.opcode == Op.intimm
                then (if legal_intimm inst.funct3 inst.funct7
                    then record inst { does_arith_logic = true; writes_rd = true; reads_rs1 = true }
                    else illegal)
                else (if inst.opcode == Op.intimmw
                    then (if legal_intimmw inst.funct3 inst.funct7
                        then record inst {
                          does_arith_logic = true;
                          writes_rd = true;
                          reads_rs1 = true;
                        }
                        else illegal)
                    else (if inst.opcode == Op.jalr
                        then record inst {
                          is_legal = true;
                          does_arith_logic = true;
                          writes_rd = true;
                          reads_rs1 = true;
                        }
                        else (if inst.opcode == Op.store
                            then (if legal_store inst.funct3
                                then record inst {
                                  reads_rs1 = true;
                                  reads_rs2 = true;
                                  writes_mem = true;
                                }
                                else illegal)
                            else (if inst.opcode == Op.branch
                                then (if legal_branch inst.funct3
                                    then record inst { reads_rs1 = true; reads_rs2 = true }
                                    else illegal)
                                else (if inst.opcode == Op.auipc
                                      || inst.opcode == Op.lui
                                      || inst.opcode == Op.jal
                                    then record inst {
                                      is_legal = true;
                                      does_arith_logic = true;
                                      writes_rd = true;
                                    }
                                    else illegal))))))))

-- The words that decode to HALT and to NOP.
abbrev pub halt_word : ℕ
halt_word = 0xfeedfeed

abbrev pub nop_word : ℕ
nop_word = 0x00000013

unfoldable pub sim_decode : Instruction → Instruction
sim_decode inst =
    let fields = decode_fields inst in
    if inst.instruction == halt_word
    then record fields { is_halt = true }
    else (if inst.instruction == nop_word
        then record fields { is_nop = true }
        else decode_op fields)

-- The registers come by value, and the copy's x0 is cleared.
unfoldable pub sim_operand_collection : Instruction → List ℕ → Instruction
sim_operand_collection inst registers =
    let cleared = set registers 0 0 in
    record inst {
      op1_val = if inst.reads_rs1 then get_or cleared inst.rs1 0 else inst.op1_val;
      op2_val = if inst.reads_rs2 then get_or cleared inst.rs2 0 else inst.op2_val;
    }
