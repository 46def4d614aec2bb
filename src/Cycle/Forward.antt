-- ===== src/Cycle/Forward.antt =====
-- The forwarding of `runCycles` (src/cycle.cpp): the operands of EX, the operands of a branch in ID,
-- and the data of a store in MEM.
use cos375_project.Base.{ℕ, Bool, false, not, ◌&&◌, ◌||◌, ◌==◌, ◌!=◌, if◌then◌else◌}
use cos375_project.Simulator.{Instruction}

-- An older instruction that has a register to forward.
unfoldable pub forwards : Instruction → Bool
forwards older = not older.is_nop && older.writes_rd && older.rd != 0

-- `readsMem ? memResult : arithResult`
unfoldable pub result_of : Instruction → ℕ
result_of older = if older.reads_mem then older.mem_result else older.arith_result

-- Both operands of `inst` from one older instruction, unless a younger one writes the same register.
unfoldable pub forward_from : Instruction → ℕ → Bool → Instruction → Instruction
unfolding forwards
forward_from older value shadowed inst =
    let active = forwards older in
    record inst {
      op1_val =
          if active && inst.reads_rs1 && inst.rs1 == older.rd && not shadowed
          then value
          else inst.op1_val;
      op2_val =
          if active && inst.reads_rs2 && inst.rs2 == older.rd && not shadowed
          then value
          else inst.op2_val;
    }

-- `younger` writes the register of `older`.
unfoldable pub shadows : Instruction → Instruction → Bool
shadows younger older = younger.writes_rd && younger.rd == older.rd

-- MEM -> EX and WB -> EX: the operands of the instruction that moves from ID to EX.
unfoldable pub forward_ex : Instruction → Instruction → Instruction → Instruction → Instruction
unfolding forward_from result_of shadows
forward_ex id ex mem wb =
    let from_ex = forward_from ex ex.arith_result false id in
    let from_mem = forward_from mem (result_of mem) (shadows ex mem) from_ex in
    forward_from wb (result_of wb) (shadows ex wb || shadows mem wb) from_mem

-- The operands of a branch in ID, from the instructions that MEM and WB hold after this cycle, and
-- from the one that WB held before.
unfoldable pub forward_branch :
    Bool → Instruction → Instruction → Instruction → Instruction → Instruction
unfolding forward_from result_of shadows
forward_branch d_stall_active id new_mem new_wb old_wb =
    let from_mem = forward_from new_mem (result_of new_mem) false id in
    let from_wb = forward_from new_wb (result_of new_wb) (shadows new_mem new_wb) from_mem in
    let from_old =
      forward_from old_wb (result_of old_wb) (shadows new_mem old_wb || shadows new_wb old_wb)
        from_wb in
    if not d_stall_active && not id.is_nop then from_old else id

-- WB -> MEM: the data of a store, from the instruction that WB held before.
unfoldable pub forward_store : Instruction → Instruction → Instruction
unfolding result_of
forward_store ex old_wb = record ex {
  op2_val =
      if ex.writes_mem
        && not old_wb.is_nop
        && old_wb.writes_rd
        && old_wb.rd == ex.rs2
        && old_wb.rd != 0
      then result_of old_wb
      else ex.op2_val;
}
