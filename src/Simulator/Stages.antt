-- ===== src/Simulator/Stages.antt =====
-- `simIF`, `simID`, `simEX`, `simMEM`, `simWB` and `simInstruction` of src/simulator.cpp. A stage that
-- changes the machine returns its new state beside the instruction.
use cos375_project.Base.{ℕ, true, not, ◌&&◌, ◌||◌, add64, ◌!=◌, if◌then◌else◌}
use cos375_project.Utilities.{normal}
use cos375_project.Simulator.{Instruction, Simulator, exception_handler}
use cos375_project.Simulator.Decode.{sim_fetch, sim_decode, sim_operand_collection}
use cos375_project.Simulator.NextPc.{sim_next_pc_resolution}
use cos375_project.Simulator.ArithLogic.{sim_arith_logic}
use cos375_project.Simulator.MemAccess.{sim_addr_gen, sim_mem_access, sim_commit}

unfoldable pub sim_if : Simulator → ℕ → Instruction
sim_if sim pc = record (sim_fetch pc sim.memory) { next_pc = add64 pc 4; status = normal }

-- The numbering of `simID`: every instruction but a NOP while the count is on.
unfoldable pub count_instruction : Simulator → Instruction → Instruction × Simulator
count_instruction sim inst =
    if not inst.is_nop && sim.count_din
    then (
      record inst { instruction_id = sim.din; din_counted = true },
      record sim { din = add64 sim.din 1 },
    )
    else (inst, sim)

-- The rest of `simID`.
unfoldable pub finish_id : Instruction × Simulator → Instruction × Simulator
finish_id (inst, sim) =
    if not inst.is_legal
    then (record inst { next_pc = exception_handler; status = normal }, sim)
    else (
      record (sim_next_pc_resolution (sim_operand_collection inst sim.registers)) {
        status = normal;
      },
      record sim { count_din = sim.count_din && not inst.is_halt },
    )

unfoldable pub sim_id : Simulator → Instruction → Instruction × Simulator
unfolding count_instruction finish_id
sim_id sim inst = finish_id (count_instruction sim (sim_decode inst))

unfoldable pub sim_ex : Instruction → Instruction
sim_ex inst =
    if not inst.is_legal || inst.mem_exception
    then record inst { status = normal }
    else record (if inst.does_arith_logic then sim_arith_logic inst else inst) { status = normal }

unfoldable pub sim_mem : Simulator → Instruction → Instruction × Simulator
sim_mem sim inst =
    if not inst.is_legal || inst.mem_exception
    then (record inst { status = normal }, sim)
    else (if inst.reads_mem || inst.writes_mem
        then (let accessed = sim_mem_access (sim_addr_gen inst) sim.memory in
            (record accessed.0 { status = normal }, record sim { memory = accessed.1 }))
        else (record inst { status = normal }, sim))

unfoldable pub sim_wb : Simulator → Instruction → Instruction × Simulator
sim_wb sim inst =
    if not inst.is_legal || inst.mem_exception
    then (record inst { next_pc = exception_handler; status = normal }, sim)
    else (if inst.is_halt || inst.is_nop
        then (record inst { next_pc = add64 inst.pc 4; status = normal }, sim)
        else (
          record inst { status = normal },
          (if inst.writes_rd && inst.rd != 0
              then record sim { registers = sim_commit inst sim.registers }
              else sim),
        ))

-- `simInstruction` past its early return. A NOP or a branch passes through: no signal is set.
unfoldable pub execute : Simulator → Instruction → Instruction × Simulator
execute sim inst =
    let resolved = sim_next_pc_resolution (sim_operand_collection inst sim.registers) in
    let computed = if resolved.does_arith_logic then sim_arith_logic resolved else resolved in
    let accessed =
      if computed.reads_mem || computed.writes_mem
      then sim_mem_access (sim_addr_gen computed) sim.memory
      else (computed, sim.memory) in
    let done = accessed.0 in
    (
      done,
      record sim {
        memory = accessed.1;
        registers = if done.writes_rd then sim_commit done sim.registers else sim.registers;
      },
    )

unfoldable pub sim_instruction : Simulator → ℕ → Instruction × Simulator
unfolding execute
sim_instruction sim pc =
    let decoded = sim_decode (sim_fetch pc sim.memory) in
    let inst : Instruction = record decoded { instruction_id = sim.din } in
    let counted : Simulator = record sim { din = add64 sim.din 1 } in
    if not inst.is_legal || inst.is_halt then (inst, counted) else execute counted inst
