-- ===== src/Cycle/Youngest.antt =====
-- The forwarding of `runCycles` (src/cycle.cpp) against its meaning: an operand comes from the
-- youngest older instruction that writes its register.
use cos375_project.Base.{
  ℕ, ◌≡◌, ◌∙◌, arith, Bool, false, not, ◌&&◌, ◌||◌, ◌==◌, ◌!=◌, if◌then◌else◌, List, [], ◌∷◌, ◌⊎◌,
}
use cos375_project.Simulator.{Instruction}
use cos375_project.Cycle.Hazard.{detect_hazards, stalls}
use cos375_project.Cycle.Loads.{load_is_free}
use cos375_project.Cycle.Forward.{
  forwards, result_of, forward_from, shadows, forward_ex, forward_branch,
}

-- The value of a register past the instructions in flight, youngest first, each with its result.
abbrev pub youngest : ℕ → List (Instruction × ℕ) → ℕ → ℕ
youngest r [] value = value
youngest r ((older, result) ∷ rest) value =
    if forwards older && r == older.rd then result else youngest r rest value

-- A NOP does not write a register.
abbrev pub IsQuiet : Instruction → Type 0
IsQuiet inst = (inst.is_nop ≡ false) ⊎ (inst.writes_rd ≡ false)

-- An operand with the source's tests, from three older instructions of which 1 is the youngest.
operand :
    (reads n1 w1 n2 w2 n3 w3 : Bool) (r d1 d2 d3 v1 v2 v3 value : ℕ)
    → (n1 ≡ false) ⊎ (w1 ≡ false)
    → (n2 ≡ false) ⊎ (w2 ≡ false)
    → (if (not n3 && w3 && d3 != 0)
          && reads
          && r == d3
          && not ((w1 && d1 == d3) || (w2 && d2 == d3))
        then v3
        else (if (not n2 && w2 && d2 != 0) && reads && r == d2 && not (w1 && d1 == d2)
            then v2
            else (if (not n1 && w1 && d1 != 0) && reads && r == d1 && not false
                then v1
                else value)))
      ≡ (if reads
          then (if (not n1 && w1 && d1 != 0) && r == d1
              then v1
              else (if (not n2 && w2 && d2 != 0) && r == d2
                  then v2
                  else (if (not n3 && w3 && d3 != 0) && r == d3 then v3 else value)))
          else value)
operand reads n1 w1 n2 w2 n3 w3 r d1 d2 d3 v1 v2 v3 value q1 q2 = ground arith

-- The same, for one operand of instructions.
operand_of :
    (reads : Bool) (r value : ℕ) (i1 i2 i3 : Instruction) (v1 v2 v3 : ℕ)
    → IsQuiet i1
    → IsQuiet i2
    → (if forwards i3 && reads && r == i3.rd && not (shadows i1 i3 || shadows i2 i3)
        then v3
        else (if forwards i2 && reads && r == i2.rd && not (shadows i1 i2)
            then v2
            else (if forwards i1 && reads && r == i1.rd && not false then v1 else value)))
      ≡ (if reads then youngest r ((i1, v1) ∷ (i2, v2) ∷ (i3, v3) ∷ []) value else value)
unfolding forwards shadows
operand_of reads r value i1 i2 i3 v1 v2 v3 q1 q2 =
    operand reads i1.is_nop i1.writes_rd i2.is_nop i2.writes_rd i3.is_nop i3.writes_rd r i1.rd i2.rd
      i3.rd v1 v2 v3 value q1 q2

-- The operands of an instruction, where it reads them.
pub record IsForwarded (id done : Instruction) (older : List (Instruction × ℕ)) : Type 0 where
  pub op1_val :
      done.op1_val ≡ (if id.reads_rs1 then youngest id.rs1 older id.op1_val else id.op1_val)
  pub op2_val :
      done.op2_val ≡ (if id.reads_rs2 then youngest id.rs2 older id.op2_val else id.op2_val)

-- The operands of the instruction entering EX, with the arithmetic result of what EX holds.
forward_ex_lem :
    (id ex mem wb : Instruction)
    → IsQuiet ex
    → IsQuiet mem
    → IsForwarded id
        (forward_ex id ex mem wb)
        ((ex, ex.arith_result) ∷ (mem, result_of mem) ∷ (wb, result_of wb) ∷ [])
unfolding forward_ex forward_from
forward_ex_lem id ex mem wb q1 q2 = record {
  op1_val =
      operand_of id.reads_rs1 id.rs1 id.op1_val ex mem wb ex.arith_result (result_of mem)
        (result_of wb) q1 q2;
  op2_val =
      operand_of id.reads_rs2 id.rs2 id.op2_val ex mem wb ex.arith_result (result_of mem)
        (result_of wb) q1 q2;
}

-- The result of what EX holds, where the operand is not that of a load.
same_operand :
    (reads : Bool) (r value : ℕ) (ex : Instruction) (older : List (Instruction × ℕ))
    → (ex.reads_mem && forwards ex && reads && r == ex.rd) ≡ false
    → (if reads then youngest r ((ex, ex.arith_result) ∷ older) value else value)
      ≡ (if reads then youngest r ((ex, result_of ex) ∷ older) value else value)
unfolding result_of
same_operand reads r value ex older h = ground arith

-- What EX gives to the second operand: to the data of a store also a load gives its arithmetic
-- result.
abbrev pub result_for_op2 : Instruction → Instruction → ℕ
result_for_op2 id ex = if id.writes_mem then ex.arith_result else result_of ex

same_op2 :
    (id ex : Instruction) (older : List (Instruction × ℕ))
    → (ex.reads_mem && forwards ex && id.reads_rs2 && id.rs2 == ex.rd && not id.writes_mem) ≡ false
    → (if id.reads_rs2
        then youngest id.rs2 ((ex, ex.arith_result) ∷ older) id.op2_val
        else id.op2_val)
      ≡ (if id.reads_rs2
          then youngest id.rs2 ((ex, result_for_op2 id ex) ∷ older) id.op2_val
          else id.op2_val)
unfolding result_of
same_op2 id ex older h = ground arith

-- Where hazard detection, outside of a D-cache stall, lets the instruction in ID go on, which is no
-- NOP, where what EX holds does not both load and store, and where a NOP in EX or MEM writes no
-- register: each operand that the instruction reads as it enters EX is the result, the loaded value
-- of a load, of the youngest of the instructions in EX, MEM and WB that writes its register, and
-- else what ID read; an operand that it does not read stays. The second operand of a store is the
-- exception: if the youngest is a load in EX, it is that load's arithmetic result, not what it
-- loads.
pub forward_ex-IsForwarded :
    (id ex mem wb : Instruction)
    → id.is_nop ≡ false
    → (ex.reads_mem ≡ false) ⊎ (ex.writes_mem ≡ false)
    → IsQuiet ex
    → IsQuiet mem
    → stalls (detect_hazards false id ex mem) ≡ false
    → let done = forward_ex id ex mem wb in
      let older : List (Instruction × ℕ) = (mem, result_of mem) ∷ (wb, result_of wb) ∷ [] in
      (done.op1_val ≡ (
        if id.reads_rs1
        then youngest id.rs1 ((ex, result_of ex) ∷ older) id.op1_val
        else id.op1_val))
      × (done.op2_val ≡ (
          if id.reads_rs2
          then youngest id.rs2 ((ex, result_for_op2 id ex) ∷ older) id.op2_val
          else id.op2_val))
forward_ex-IsForwarded id ex mem wb some_inst no_store q1 q2 h =
    let forwarded = forward_ex_lem id ex mem wb q1 q2 in
    let older : List (Instruction × ℕ) = (mem, result_of mem) ∷ (wb, result_of wb) ∷ [] in
    let (free1, free2) = load_is_free id ex mem some_inst no_store h in
    (
      forwarded.op1_val ∙ same_operand id.reads_rs1 id.rs1 id.op1_val ex older free1,
      forwarded.op2_val ∙ same_op2 id ex older free2,
    )

-- Where ID holds no NOP, the pipeline is not held, and a NOP in MEM or WB writes no register, each
-- operand that the instruction in ID reads is, for resolving a branch, the result of the youngest
-- of the instructions that MEM and WB hold after the cycle and WB held before it that writes its
-- register, and else what ID read.
pub forward_branch-IsForwarded :
    (id mem wb old_wb : Instruction)
    → id.is_nop ≡ false
    → IsQuiet mem
    → IsQuiet wb
    → IsForwarded id
        (forward_branch false id mem wb old_wb)
        ((mem, result_of mem) ∷ (wb, result_of wb) ∷ (old_wb, result_of old_wb) ∷ [])
unfolding forward_branch forward_from
forward_branch-IsForwarded id mem wb old_wb h q1 q2 = record {
  op1_val = rw h (
      operand_of id.reads_rs1 id.rs1 id.op1_val mem wb old_wb (result_of mem) (result_of wb)
        (result_of old_wb) q1 q2);
  op2_val = rw h (
      operand_of id.reads_rs2 id.rs2 id.op2_val mem wb old_wb (result_of mem) (result_of wb)
        (result_of old_wb) q1 q2);
}
