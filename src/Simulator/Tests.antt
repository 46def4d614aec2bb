-- ===== src/Simulator/Tests.antt =====
-- Single instructions of src/simulator.cpp.
use cos375_project.Base.{◌≡◌, refl, arith, true, replicate, set}
use cos375_project.Utilities.{extract_bits, sext64}
use cos375_project.MemoryStore.{get_bytes, valid_size, get_or_set_value, get_mem_value}
use cos375_project.Simulator.{Instruction, Simulator, blank}
use cos375_project.Simulator.Decode.{sim_decode, sim_operand_collection}
use cos375_project.Simulator.NextPc.{branch_imm, sim_next_pc_resolution}
use cos375_project.Simulator.MemAccess.{sim_addr_gen, access_size}
use cos375_project.Simulator.Stages.{execute}
use cos375_project.Simulator.Immediates.{branch_imm_lem}
use cos375_project.Simulator.Encoding.{Fields, IsEncodable, fields_of, sim_decode-encode}
use cos375_project.Simulator.Signals.{IsConsistent, sim_decode-IsConsistent}
use cos375_project.Simulator.Faults.{execute-fault}

-- -20 in 12, 13 and 21 bits.
branch_imm_lem_example : branch_imm 127 13 ≡ sext64 0x1fec 12
branch_imm_lem_example = branch_imm_lem 0x1fec (omega arith) refl

-- sub x5, x6, x7
abbrev sub_fields : Fields
sub_fields = record { opcode = 0x33; rd = 5; funct3 = 0; rs1 = 6; rs2 = 7; funct7 = 32 }

sub_fields-IsEncodable : IsEncodable sub_fields
sub_fields-IsEncodable = record {
  opcode = omega arith;
  rd = omega arith;
  funct3 = omega arith;
  rs1 = omega arith;
  rs2 = omega arith;
  funct7 = omega arith;
}

sim_decode-encode_example :
    fields_of (sim_decode (record blank { instruction = 0x407302b3 })) ≡ sub_fields
sim_decode-encode_example =
    sim_decode-encode (record blank { instruction = 0x407302b3 }) sub_fields refl
      sub_fields-IsEncodable

-- lw x5, 100(x0) on a memory of 16 bytes, where x5 holds 7.
abbrev far_load : Instruction
far_load = record blank {
  instruction = 0x06402283;
  is_legal = true;
  reads_rs1 = true;
  writes_rd = true;
  reads_mem = true;
  opcode = 0x03;
  rd = 5;
  funct3 = 2;
}

abbrev small_machine : Simulator
small_machine = record {
  registers = set (replicate 32 0) 5 7;
  memory = record { start_addr = 0; mem_arr = replicate 16 0 };
  din = 0;
  count_din = true;
}

execute-fault_example :
    ((execute small_machine far_load).0.mem_exception ≡ true)
    × ((execute small_machine far_load).1.memory ≡ small_machine.memory)
    × ((execute small_machine far_load).1.registers ≡ set small_machine.registers 5 0)
unfolding get_mem_value get_or_set_value get_bytes valid_size sim_addr_gen sim_next_pc_resolution
    sim_operand_collection access_size extract_bits sext64
execute-fault_example = execute-fault small_machine far_load refl refl refl refl

sim_decode-IsConsistent_example :
    IsConsistent (sim_decode (record blank { pc = 0; instruction = 0x407302b3 }))
sim_decode-IsConsistent_example = sim_decode-IsConsistent 0 0x407302b3
