-- ===== src/Simulator/MemAccess.antt =====
-- `simAddrGen`, `simMemAccess` and `simCommit` of src/simulator.cpp.
use cos375_project.Base.{
  ℕ, ◌-◌, ◌*◌, Bool, true, ◌||◌, List, bit_or, add64, shl64, ◌==◌, if◌then◌else◌, set,
}
use cos375_project.Utilities.{extract_bits, sext64}
use cos375_project.Utilities.Funct3
use cos375_project.MemoryStore.{
  MemoryStore, Ret, zero_ret, einval, get_mem_value, set_mem_value, byte_size, half_size, word_size,
  double_size,
}
use cos375_project.Simulator.{Instruction}

-- The S-type immediate.
unfoldable pub store_imm : ℕ → ℕ → ℕ
store_imm imm7 imm5 = sext64 (bit_or (shl64 imm7 5) imm5) 11

unfoldable pub sim_addr_gen : Instruction → Instruction
sim_addr_gen inst =
    let imm12 = extract_bits inst.instruction 31 20 in
    record inst {
      mem_address =
          if inst.reads_mem
          then add64 inst.op1_val (sext64 imm12 11)
          else (if inst.writes_mem
              then add64 inst.op1_val (store_imm inst.funct7 inst.rd)
              else inst.mem_address);
    }

unfoldable pub access_size : ℕ → ℕ
access_size funct3 =
    if funct3 == Funct3.b || funct3 == Funct3.bu
    then byte_size
    else (if funct3 == Funct3.h || funct3 == Funct3.hu
        then half_size
        else (if funct3 == Funct3.w || funct3 == Funct3.wu then word_size else double_size))

-- The loads that extend the sign.
unfoldable pub extends_sign : ℕ → Bool
extends_sign funct3 = funct3 == Funct3.b || funct3 == Funct3.h || funct3 == Funct3.w

-- What a load makes of the result of `getMemValue`.
unfoldable pub loaded : Instruction → Ret × ℕ → Instruction
loaded inst (zero_ret, value) = record inst {
  mem_result =
      if extends_sign inst.funct3 then sext64 value (access_size inst.funct3 * 8 - 1) else value;
}
loaded inst (einval, value) = record inst { mem_exception = true }

-- What a store makes of the result of `setMemValue`.
unfoldable pub stored : Instruction → Ret × MemoryStore → Instruction × MemoryStore
stored inst (zero_ret, mem) = (inst, mem)
stored inst (einval, mem) = (record inst { mem_exception = true }, mem)

unfoldable pub sim_mem_access : Instruction → MemoryStore → Instruction × MemoryStore
sim_mem_access inst my_mem =
    let size = access_size inst.funct3 in
    if inst.reads_mem
    then (loaded inst (get_mem_value my_mem inst.mem_address 0 size), my_mem)
    else (if inst.writes_mem
        then stored inst (set_mem_value my_mem inst.mem_address inst.op2_val size)
        else (inst, my_mem))

-- The register file after the instruction; the instruction does not change.
unfoldable pub sim_commit : Instruction → List ℕ → List ℕ
sim_commit inst registers =
    set registers inst.rd (if inst.reads_mem then inst.mem_result else inst.arith_result)
