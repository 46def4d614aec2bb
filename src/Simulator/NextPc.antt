-- ===== src/Simulator/NextPc.antt =====
-- `simNextPCResolution` of src/simulator.cpp.
use cos375_project.Base.{
  ℕ, ◌-◌, ◌^◌, Bool, false, bit_and, bit_or, add64, shl64, ◌==◌, ◌!=◌, ltb, leb, ltbℤ, int64, not,
  if◌then◌else◌,
}
use cos375_project.Utilities.{extract_bits, sext64}
use cos375_project.Utilities.Op
use cos375_project.Utilities.Funct3
use cos375_project.Simulator.{Instruction}

-- The B-type immediate, from the fields `funct7` and `rd`.
unfoldable pub branch_imm : ℕ → ℕ → ℕ
branch_imm imm7 imm5 =
    sext64
      (bit_or
        (bit_or (bit_or (shl64 (extract_bits imm7 6 6) 12) (shl64 (extract_bits imm7 5 0) 5))
          (shl64 (extract_bits imm5 4 1) 1))
        (shl64 (extract_bits imm5 0 0) 11))
      12

-- The J-type immediate, from the upper 20 bits.
unfoldable pub jal_imm : ℕ → ℕ
jal_imm imm20 =
    sext64
      (bit_or
        (bit_or (bit_or (shl64 (extract_bits imm20 19 19) 20) (shl64 (extract_bits imm20 18 9) 1))
          (shl64 (extract_bits imm20 8 8) 11))
        (shl64 (extract_bits imm20 7 0) 12))
      20

-- The inner `switch`: whether the branch leaves the straight line.
unfoldable pub branch_taken : ℕ → ℕ → ℕ → Bool
branch_taken funct3 op1 op2 =
    if funct3 == Funct3.beq
    then op1 == op2
    else (if funct3 == Funct3.bne
        then op1 != op2
        else (if funct3 == Funct3.blt
            then ltbℤ (int64 op1) (int64 op2)
            else (if funct3 == Funct3.bge
                then not (ltbℤ (int64 op1) (int64 op2))
                else (if funct3 == Funct3.bltu
                    then ltb op1 op2
                    else (if funct3 == Funct3.bgeu then leb op2 op1 else false)))))

unfoldable pub sim_next_pc_resolution : Instruction → Instruction
sim_next_pc_resolution inst =
    let imm12 = extract_bits inst.instruction 31 20 in
    let imm20 = extract_bits inst.instruction 31 12 in
    let branch_target = add64 inst.pc (branch_imm inst.funct7 inst.rd) in
    let jal_target = add64 inst.pc (jal_imm imm20) in
    let next = add64 inst.pc 4 in
    record inst {
      next_pc =
          if inst.opcode == Op.jalr
          then bit_and (add64 inst.op1_val (sext64 imm12 11)) (2 ^ 64 - 2)
          else (if inst.opcode == Op.branch
              then (if branch_taken inst.funct3 inst.op1_val inst.op2_val
                  then branch_target
                  else next)
              else (if inst.opcode == Op.jal then jal_target else next));
    }
