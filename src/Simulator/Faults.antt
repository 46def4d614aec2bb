-- ===== src/Simulator/Faults.antt =====
-- What the functional simulator (src/simulator.cpp) makes of a load outside the memory.
use cos375_project.Base.{ℕ, ◌≡◌, refl, ◌∙◌, ap, ap₂, arith, true, false, set, if◌then◌else◌}
use cos375_project.MemoryStore.{MemoryStore, Ret, einval, zero_ret, get_mem_value}
use cos375_project.Simulator.{Instruction, Simulator}
use cos375_project.Simulator.Decode.{sim_operand_collection}
use cos375_project.Simulator.NextPc.{sim_next_pc_resolution}
use cos375_project.Simulator.MemAccess.{
  sim_addr_gen, sim_mem_access, sim_commit, loaded, access_size,
}
use cos375_project.Simulator.Stages.{execute}

-- The instruction with its operands, its next address and its memory address.
abbrev pub addressed : Simulator → Instruction → Instruction
addressed sim inst =
    sim_addr_gen (sim_next_pc_resolution (sim_operand_collection inst sim.registers))

loaded-fault :
    (inst : Instruction) (r : Ret × ℕ)
    → r.0 ≡ einval
    → loaded inst r ≡ record inst { mem_exception = true }
unfolding loaded
loaded-fault inst (zero_ret, value) e = cc
loaded-fault inst (einval, value) e = refl

access-fault :
    (inst : Instruction) (mem : MemoryStore)
    → inst.reads_mem ≡ true
    → (get_mem_value mem inst.mem_address 0 (access_size inst.funct3)).0 ≡ einval
    → sim_mem_access inst mem ≡ (record inst { mem_exception = true }, mem)
unfolding sim_mem_access
access-fault inst mem reads fault =
    let refused =
      loaded-fault inst (get_mem_value mem inst.mem_address 0 (access_size inst.funct3)) fault in
    ground (arith, reads, refused)

-- What these steps keep of the instruction.
addressed-keeps :
    (sim : Simulator) (inst : Instruction)
    → let a = addressed sim inst in
      (a.reads_mem ≡ inst.reads_mem)
      × (a.funct3 ≡ inst.funct3)
      × (a.writes_rd ≡ inst.writes_rd)
      × (a.rd ≡ inst.rd)
      × (a.mem_result ≡ inst.mem_result)
unfolding sim_operand_collection sim_next_pc_resolution sim_addr_gen
addressed-keeps sim inst = (refl, refl, refl, refl, refl)

abbrev resolved : Simulator → Instruction → Instruction
resolved sim inst = sim_next_pc_resolution (sim_operand_collection inst sim.registers)

resolved-keeps :
    (sim : Simulator) (inst : Instruction)
    → ((resolved sim inst).reads_mem ≡ inst.reads_mem)
      × ((resolved sim inst).does_arith_logic ≡ inst.does_arith_logic)
unfolding sim_operand_collection sim_next_pc_resolution
resolved-keeps sim inst = (refl, refl)

-- The machine after the access of a load.
abbrev finished : Simulator → Instruction × MemoryStore → Instruction × Simulator
finished sim (done, memory) = (
  done,
  record sim {
    memory = memory;
    registers = if done.writes_rd then sim_commit done sim.registers else sim.registers;
  },
)

execute-load :
    (sim : Simulator) (inst : Instruction)
    → inst.reads_mem ≡ true
    → inst.does_arith_logic ≡ false
    → execute sim inst ≡ finished sim (sim_mem_access (addressed sim inst) sim.memory)
unfolding execute
execute-load sim inst reads no_arith =
    let (keeps_reads, keeps_arith) = resolved-keeps sim inst in
    rw (keeps_arith ∙ no_arith, keeps_reads ∙ reads) refl

-- In the functional simulator, a load that writes a register and whose address is refused sets the
-- exception flag, leaves the memory as it was, and writes the memory result that the instruction
-- already had to its register.
pub execute-fault :
    (sim : Simulator) (inst : Instruction)
    → inst.reads_mem ≡ true
    → inst.writes_rd ≡ true
    → inst.does_arith_logic ≡ false
    → (get_mem_value sim.memory (addressed sim inst).mem_address 0 (access_size inst.funct3)).0
      ≡ einval
    → let (done, sim') = execute sim inst in
      (done.mem_exception ≡ true)
      × (sim'.memory ≡ sim.memory)
      × (sim'.registers ≡ set sim.registers inst.rd inst.mem_result)
unfolding sim_commit
execute-fault sim inst reads writes no_arith fault =
    let (keeps_reads, keeps_funct3, keeps_writes, keeps_rd, keeps_result) =
      addressed-keeps sim inst in
    let refused = access-fault (addressed sim inst) sim.memory (keeps_reads ∙ reads) (
      ap (λ f. (get_mem_value sim.memory (addressed sim inst).mem_address 0 (access_size f)).0)
        keeps_funct3
      ∙ fault) in
    rw (execute-load sim inst reads no_arith, refused, keeps_writes ∙ writes)
      (
        refl,
        refl,
        ap₂ (λ d v. set sim.registers d v) keeps_rd (rw (keeps_reads ∙ reads) keeps_result),
      )
