-- ===== src/Cycle/Tests/Hazards.antt =====
-- Hazard detection and forwarding on concrete instructions.
use cos375_project.Base.{ℕ, List, ◌≡◌, inl, arith, not, ◌&&◌, ◌==◌, refl, true, false, [], ◌∷◌}
use cos375_project.Cycle.{nop}
use cos375_project.Utilities.{bubble}
use cos375_project.Simulator.{Instruction, blank}
use cos375_project.Cycle.Hazard.{is_load, depends_on}
use cos375_project.Cycle.Forward.{forwards, result_of, forward_ex, forward_branch, forward_store}
use cos375_project.Cycle.Youngest.{
  IsForwarded, youngest, result_for_op2, forward_ex-IsForwarded, forward_branch-IsForwarded,
}
use cos375_project.Cycle.Loads.{detect_hazards-load, detect_hazards-branch}
use cos375_project.Cycle.Store.{store_data_stale}
use cos375_project.Cycle.Tests.Programs.{pipeline}

-- add x5, x5, x6 in flight behind addi x5 in EX and lw x6 in MEM.
abbrev pub add_inst : Instruction
add_inst = record blank {
  is_legal = true;
  does_arith_logic = true;
  writes_rd = true;
  reads_rs1 = true;
  reads_rs2 = true;
  opcode = 0x33;
  rd = 5;
  rs1 = 5;
  rs2 = 6;
}

abbrev pub addi_inst : Instruction
addi_inst = record blank {
  is_legal = true;
  does_arith_logic = true;
  writes_rd = true;
  opcode = 0x13;
  rd = 5;
  arith_result = 11;
}

abbrev pub load_inst : Instruction
load_inst = record blank {
  is_legal = true;
  writes_rd = true;
  reads_mem = true;
  opcode = 0x03;
  funct3 = 2;
  rd = 6;
  mem_result = 22;
}

abbrev pub store_inst : Instruction
store_inst = record blank {
  is_legal = true;
  writes_mem = true;
  reads_rs1 = true;
  reads_rs2 = true;
  opcode = 0x23;
  funct3 = 2;
  rs2 = 5;
}

abbrev branch_inst : Instruction
branch_inst = record add_inst { opcode = 0x63; writes_rd = false; does_arith_logic = false }

-- The result of the ALU for rs1, and the loaded value for rs2, whose load is in MEM.
forward_ex-IsForwarded_example :
    let done = forward_ex add_inst addi_inst load_inst addi_inst in
    let older : List (Instruction × ℕ) =
      (load_inst, result_of load_inst) ∷ (addi_inst, result_of addi_inst) ∷ [] in
    (done.op1_val ≡ youngest 5 ((addi_inst, result_of addi_inst) ∷ older) add_inst.op1_val)
    × (done.op2_val
        ≡ youngest 6 ((addi_inst, result_for_op2 add_inst addi_inst) ∷ older) add_inst.op2_val)
unfolding pipeline
forward_ex-IsForwarded_example =
    forward_ex-IsForwarded add_inst addi_inst load_inst addi_inst refl (inl refl) (inl refl)
      (inl refl) refl

forward_branch-IsForwarded_example :
    IsForwarded branch_inst (forward_branch false branch_inst addi_inst load_inst addi_inst) (
      (addi_inst, result_of addi_inst)
      ∷ (load_inst, result_of load_inst)
      ∷ (addi_inst, result_of addi_inst)
      ∷ [])
forward_branch-IsForwarded_example =
    forward_branch-IsForwarded branch_inst addi_inst load_inst addi_inst refl (inl refl) (inl refl)

detect_hazards-load_example :
    ((add_inst.reads_rs1 && add_inst.rs1 == 7) ≡ false)
    × ((add_inst.reads_rs2 && add_inst.rs2 == 7 && not add_inst.writes_mem) ≡ false)
unfolding pipeline
detect_hazards-load_example =
    detect_hazards-load add_inst (record load_inst { rd = 7 }) addi_inst refl refl refl
      (refl, refl, refl, omega arith)

-- A bubble in EX, the load of another register in MEM.
detect_hazards-branch_example :
    ((forwards (nop bubble) && depends_on branch_inst (nop bubble)) ≡ false)
    × ((forwards (record load_inst { rd = 7 })
          && is_load (record load_inst { rd = 7 })
          && depends_on branch_inst (record load_inst { rd = 7 }))
        ≡ false)
unfolding pipeline
detect_hazards-branch_example =
    detect_hazards-branch branch_inst (nop bubble) (record load_inst { rd = 7 }) refl refl

store_data_stale_example :
    ((forward_ex store_inst addi_inst (record load_inst { rd = 5 }) addi_inst).op2_val ≡ 11)
    × ((forward_store
          (forward_ex store_inst addi_inst (record load_inst { rd = 5 }) addi_inst)
          (record load_inst { rd = 5 })).op2_val
        ≡ result_of (record load_inst { rd = 5 }))
store_data_stale_example =
    store_data_stale store_inst addi_inst (record load_inst { rd = 5 }) addi_inst refl refl
      (refl, refl, omega arith, refl) (refl, refl, omega arith, refl)
