-- ===== src/Simulator/ArithLogic.antt =====
-- `simArithLogic` of src/simulator.cpp, one function for each opcode of its `switch`. Each gives the
-- new `arithResult`, which stays as it was where no case sets it.
use cos375_project.Base.{
  ℕ, Bool, ◌&&◌, ◌||◌, bit_and, bit_or, bit_xor, u32, add64, sub64, sub32, shl64, shl32, ◌>>>◌, ◌+◌,
  ◌==◌, ltb, ltbℤ, int64, int32, sshr, from_signed, if◌then◌else◌,
}
use cos375_project.Utilities.{extract_bits, sext64, sext32}
use cos375_project.Utilities.Op
use cos375_project.Utilities.Funct3
use cos375_project.Utilities.Funct7
use cos375_project.Utilities.UpperImm
use cos375_project.Simulator.{Instruction}

-- The conversion of a `bool` to a number.
abbrev pub from_bool : Bool → ℕ
from_bool b = if b then 1 else 0

module _ (funct3 funct7 upper_imm12 : ℕ) (op1 op2 old : ℕ) where
  unfoldable pub arith_int : ℕ
  arith_int =
      if funct3 == Funct3.add
      then (if funct7 == Funct7.add
          then add64 op1 op2
          else (if funct7 == Funct7.sub then sub64 op1 op2 else old))
      else (if funct3 == Funct3.sll
          then shl64 op1 op2
          else (if funct3 == Funct3.slt
              then from_bool (ltbℤ (int64 op1) (int64 op2))
              else (if funct3 == Funct3.sltu
                  then from_bool (ltb op1 op2)
                  else (if funct3 == Funct3.xor
                      then bit_xor op1 op2
                      else (if funct3 == Funct3.sr
                          then (if upper_imm12 == Funct7.logical
                              then op1 >>> op2
                              else (if upper_imm12 == UpperImm.arith
                                  then from_signed (sshr (int64 op1) op2)
                                  else old))
                          else (if funct3 == Funct3.or
                              then bit_or op1 op2
                              else (if funct3 == Funct3.and then bit_and op1 op2 else old)))))))

  unfoldable pub arith_intw : ℕ
  arith_intw =
      if funct3 == Funct3.add
      then (if funct7 == Funct7.add
          then sext64 (u32 (u32 op1 + u32 op2)) 31
          else (if funct7 == Funct7.sub then sext64 (sub32 (u32 op1) (u32 op2)) 31 else old))
      else (if funct3 == Funct3.sll
          then sext64 (shl32 (u32 op1) (u32 op2)) 31
          else (if funct3 == Funct3.sr
              then (if upper_imm12 == Funct7.logical
                  then sext64 (u32 op1 >>> u32 op2) 31
                  else (if upper_imm12 == UpperImm.arith
                      then sext64 (from_signed (sshr (int32 (u32 op1)) (u32 op2))) 31
                      else old))
              else old))

module _ (funct3 upper_imm12 imm12 : ℕ) (op1 old : ℕ) where
  unfoldable pub arith_intimm : ℕ
  arith_intimm =
      if funct3 == Funct3.add
      then add64 op1 (sext64 imm12 11)
      else (if funct3 == Funct3.sll
          then shl64 op1 (bit_and imm12 0x3f)
          else (if funct3 == Funct3.slt
              then from_bool (ltbℤ (int64 op1) (int64 (sext64 imm12 11)))
              else (if funct3 == Funct3.sltu
                  then from_bool (ltb op1 (sext64 imm12 11))
                  else (if funct3 == Funct3.xor
                      then bit_xor op1 (sext64 imm12 11)
                      else (if funct3 == Funct3.sr
                          then (if upper_imm12 == UpperImm.logical
                              then op1 >>> bit_and imm12 0x3f
                              else (if upper_imm12 == UpperImm.arith
                                  then from_signed (sshr (int64 op1) (bit_and imm12 0x3f))
                                  else old))
                          else (if funct3 == Funct3.or
                              then bit_or op1 (sext64 imm12 11)
                              else (if funct3 == Funct3.and
                                  then bit_and op1 (sext64 imm12 11)
                                  else old)))))))

  unfoldable pub arith_intimmw : ℕ
  arith_intimmw =
      if funct3 == Funct3.add
      then sext64 (u32 (u32 op1 + u32 (sext32 imm12 11))) 31
      else (if funct3 == Funct3.sll
          then sext64 (shl32 (u32 op1) (u32 (bit_and imm12 0x1f))) 31
          else (if funct3 == Funct3.sr
              then (if upper_imm12 == UpperImm.logical
                  then sext64 (u32 op1 >>> u32 (bit_and imm12 0x1f)) 31
                  else (if upper_imm12 == UpperImm.arith
                      then sext64 (from_signed (sshr (int32 (u32 op1)) (u32 (bit_and imm12 0x1f))))
                          31
                      else old))
              else old))

-- The shift amounts in `op2Val` are cut to 6 or 5 bits first, and stay cut in the instruction.
unfoldable pub mask_shift : Instruction → Instruction
mask_shift inst =
    let shifts = inst.funct3 == Funct3.sll || inst.funct3 == Funct3.sr in
    record inst {
      op2_val =
          if inst.opcode == Op.int && shifts
          then bit_and inst.op2_val 0x3f
          else (if inst.opcode == Op.intw && shifts
              then bit_and inst.op2_val 0x1f
              else inst.op2_val);
    }

-- The `switch` on the opcode.
unfoldable pub arith_of : Instruction → ℕ
unfolding arith_int arith_intw arith_intimm arith_intimmw
arith_of inst =
    let imm12 = extract_bits inst.instruction 31 20 in
    let upper_imm12 = extract_bits inst.instruction 31 26 in
    let imm20 = extract_bits inst.instruction 31 12 in
    let old = inst.arith_result in
    if inst.opcode == Op.int
    then arith_int inst.funct3 inst.funct7 upper_imm12 inst.op1_val inst.op2_val old
    else (if inst.opcode == Op.intw
        then arith_intw inst.funct3 inst.funct7 upper_imm12 inst.op1_val inst.op2_val old
        else (if inst.opcode == Op.intimm
            then arith_intimm inst.funct3 upper_imm12 imm12 inst.op1_val old
            else (if inst.opcode == Op.intimmw
                then arith_intimmw inst.funct3 upper_imm12 imm12 inst.op1_val old
                else (if inst.opcode == Op.jalr
                    then add64 inst.pc 4
                    else (if inst.opcode == Op.auipc
                        then add64 inst.pc (sext64 (shl64 imm20 12) 31)
                        else (if inst.opcode == Op.lui
                            then sext64 (shl64 imm20 12) 31
                            else (if inst.opcode == Op.jal then add64 inst.pc 4 else old)))))))

unfoldable pub sim_arith_logic : Instruction → Instruction
sim_arith_logic inst =
    let masked = mask_shift inst in record masked { arith_result = arith_of masked }
