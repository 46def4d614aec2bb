-- ===== src/Cycle/Stores.antt =====
-- What a cycle of `runCycles` (src/cycle.cpp) does to the memory: the store in EX, and nothing else.
use cos375_project.Base.{
  ℕ, zero, suc, ◌≡◌, ◌<◌, ◌^◌, ◌%◌, ◌∙◌, refl, arith, Bool, Bool-cases, true, false, not, ◌&&◌,
  ◌||◌, ◌==◌, inl, inr, if◌then◌else◌, if-keeps, add64, ltb,
}
use cos375_project.MemoryStore.{Ret, zero_ret, einval, MemoryStore, set_mem_value}
use cos375_project.Cache.{Cache}
use cos375_project.Simulator.{Instruction, Simulator}
use cos375_project.Simulator.MemAccess.{
  store_imm, sim_addr_gen, access_size, stored, sim_mem_access,
}
use cos375_project.Simulator.Stages.{sim_mem, sim_wb}
use cos375_project.Cycle.{CycleState}
use cos375_project.Cycle.Exceptions.{id_stage_keeps, time_access_simulator}
use cos375_project.Cycle.Registers.{retire_simulator}
use cos375_project.Cycle.Memory.{sim_wb_memory}
use cos375_project.Cycle.Forward.{forwards, result_of, forward_store}
use cos375_project.Cycle.Stages.{WbResult, is_squashed, wb_stage, enter_mem, mem_stage}
use cos375_project.Cycle.Step.{cycle}

-- The bytes of an access, by the three bits of funct3.
access_size_lem : (funct3 : ℕ) → funct3 < 8 → access_size funct3 ≡ 2 ^ (funct3 % 4)
unfolding access_size
access_size_lem zero h = refl
access_size_lem (suc zero) h = refl
access_size_lem (suc (suc zero)) h = refl
access_size_lem (suc (suc (suc zero))) h = refl
access_size_lem (suc (suc (suc (suc zero)))) h = refl
access_size_lem (suc (suc (suc (suc (suc zero))))) h = refl
access_size_lem (suc (suc (suc (suc (suc (suc zero)))))) h = refl
access_size_lem (suc (suc (suc (suc (suc (suc (suc zero))))))) h = refl
access_size_lem (suc (suc (suc (suc (suc (suc (suc (suc n)))))))) h = omega arith

stored_memory : (inst : Instruction) (r : Ret × MemoryStore) → (stored inst r).1 ≡ r.1
unfolding stored
stored_memory inst (zero_ret, mem) = refl
stored_memory inst (einval, mem) = refl

-- The instruction does not write the memory in MEM.
abbrev pub is_no_store : Instruction → Bool
is_no_store inst = not inst.is_legal || inst.mem_exception || inst.reads_mem || not inst.writes_mem

-- The memory after a store of `value` by an instruction.
abbrev pub store_of : MemoryStore → Instruction → ℕ → MemoryStore
store_of mem inst value =
    (set_mem_value mem (add64 inst.op1_val (store_imm inst.funct7 inst.rd)) value
      (2 ^ (inst.funct3 % 4))).1

accessed_memory :
    (inst : Instruction) (mem : MemoryStore)
    → (sim_mem_access inst mem).1 ≡ (
        if inst.reads_mem || not inst.writes_mem
        then mem
        else (set_mem_value mem inst.mem_address inst.op2_val (access_size inst.funct3)).1)
unfolding sim_mem_access
accessed_memory inst mem = ground (
  arith,
  stored_memory inst (set_mem_value mem inst.mem_address inst.op2_val (access_size inst.funct3)),
)

-- The memory after an access that is no load, with the address generated.
generated_memory :
    (inst : Instruction) (mem : MemoryStore)
    → inst.funct3 < 8
    → inst.reads_mem ≡ false
    → inst.writes_mem ≡ true
    → (sim_mem_access (sim_addr_gen inst) mem).1 ≡ store_of mem inst inst.op2_val
generated_memory inst mem h no_load writes =
    accessed_memory (sim_addr_gen inst) mem
    ∙ unfold sim_addr_gen in rw (no_load, writes, access_size_lem inst.funct3 h) refl

loaded_memory :
    (inst : Instruction) (mem : MemoryStore)
    → inst.reads_mem ≡ true
    → (sim_mem_access (sim_addr_gen inst) mem).1 ≡ mem
unfolding sim_addr_gen
loaded_memory inst mem loads = accessed_memory (sim_addr_gen inst) mem ∙ rw loads refl

sim_mem-memory :
    (sim : Simulator) (inst : Instruction)
    → inst.funct3 < 8
    → (sim_mem sim inst).1.memory
      ≡ (if is_no_store inst then sim.memory else store_of sim.memory inst inst.op2_val)
unfolding sim_mem
sim_mem-memory sim inst h = elim (Bool-cases inst.reads_mem) [
  | inl loads ↦ ground (arith, loaded_memory inst sim.memory loads)
  | inr no_load ↦ elim (Bool-cases inst.writes_mem) [
    | inl writes ↦ ground (arith, generated_memory inst sim.memory h no_load writes)
    | inr no_write ↦ ground arith
  ]
]

-- The data of a store in MEM: the result of the instruction that WB held before, where that writes
-- its register.
abbrev pub store_value : Instruction → Instruction → ℕ
store_value ex old_wb =
    if forwards old_wb && old_wb.rd == ex.rs2 then result_of old_wb else ex.op2_val

forwarded_value :
    (ex old_wb : Instruction)
    → ex.writes_mem ≡ true
    → (forward_store ex old_wb).op2_val ≡ store_value ex old_wb
unfolding forward_store forwards
forwarded_value ex old_wb writes = ground arith

forwarded_memory :
    (ex old_wb : Instruction) (mem : MemoryStore)
    → (if is_no_store (forward_store ex old_wb)
        then mem
        else store_of mem (forward_store ex old_wb) (forward_store ex old_wb).op2_val)
      ≡ (if is_no_store ex then mem else store_of mem ex (store_value ex old_wb))
unfolding forward_store
forwarded_memory ex old_wb mem = elim (Bool-cases ex.writes_mem) [
  | inl writes ↦ rw (forwarded_value ex old_wb writes) refl
  | inr no_write ↦ rw no_write (ground arith)
]

enter_mem-memory :
    (ex old_wb : Instruction) (sim : Simulator) (c : Cache) (left : ℕ)
    → ex.funct3 < 8
    → (enter_mem ex old_wb sim c left).simulator.memory
      ≡ (if is_no_store ex then sim.memory else store_of sim.memory ex (store_value ex old_wb))
unfolding enter_mem
enter_mem-memory ex old_wb sim c left h =
    let input = forward_store ex old_wb in
    let small : input.funct3 < 8 = unfold forward_store in h in
    elim (Bool-cases (input.reads_mem || input.writes_mem)) [
      | inl touches ↦
          rw
            (
              touches,
              time_access_simulator (sim_addr_gen input) c left (sim_mem sim (sim_addr_gen input)),
            )
            (sim_mem-memory sim (sim_addr_gen input) (unfold sim_addr_gen in small)
              ∙ unfold sim_addr_gen in forwarded_memory ex old_wb sim.memory)
      | inr untouched ↦
          rw untouched (sim_mem-memory sim input small ∙ forwarded_memory ex old_wb sim.memory)
    ]

-- Nothing in EX writes the memory in this cycle: the D-cache is waited for, or EX holds a NOP, a
-- squashed instruction, or no store.
abbrev pub is_idle : CycleState → Bool
is_idle s =
    let ex = s.pipeline.ex_inst in
    ltb 0 s.d_stall_left || ex.is_nop || is_squashed ex.status || is_no_store ex

mem_stage-memory :
    (d : Bool) (old_mem ex old_wb : Instruction) (sim : Simulator) (c : Cache) (left : ℕ)
    → ex.funct3 < 8
    → (mem_stage d old_mem ex old_wb sim c left).simulator.memory ≡ (
        if d || ex.is_nop || is_squashed ex.status || is_no_store ex
        then sim.memory
        else store_of sim.memory ex (store_value ex old_wb))
unfolding mem_stage
mem_stage-memory d old_mem ex old_wb sim c left h =
    let entered = enter_mem-memory ex old_wb sim c left h in
    elim (Bool-cases d) [
      | inl waits ↦ rw waits refl
      | inr ready ↦ elim (Bool-cases (ex.is_nop || is_squashed ex.status)) [
        | inl out ↦ ground arith
        | inr live ↦ ground arith
      ]
    ]

wb_stage_memory :
    (d : Bool) (old_mem : Instruction) (sim : Simulator) (n pc : ℕ)
    → (wb_stage d old_mem sim n pc).simulator.memory ≡ sim.memory
unfolding wb_stage
wb_stage_memory d old_mem sim n pc =
    let P : WbResult → Type 0 = (λ r. r.simulator.memory ≡ sim.memory) in
    if-keeps P d _ _ refl (
      if-keeps P (not old_mem.is_nop && old_mem.mem_exception) _ _ refl
        (rw (retire_simulator old_mem n pc (sim_wb sim old_mem)) (sim_wb_memory sim old_mem)))

-- Where the funct3 in EX has three bits, a cycle changes the memory only if EX holds a legal store,
-- no NOP, not squashed, without an exception, and the D-cache is not waited for, and then exactly
-- as setMemValue does: at the first operand plus the immediate of the store, with 2^(funct3 mod 4)
-- bytes, and with the result of the instruction in WB if that writes the second register, else with
-- the second operand that EX holds.
pub cycle-memory :
    (s : CycleState)
    → s.pipeline.ex_inst.funct3 < 8
    → (cycle s).0.simulator.memory ≡ (
        if is_idle s
        then s.simulator.memory
        else store_of s.simulator.memory s.pipeline.ex_inst
            (store_value s.pipeline.ex_inst s.pipeline.wb_inst))
unfolding cycle
cycle-memory s h =
    (id_stage_keeps _ _ _ _ _ _ _ _ _).1
    ∙ mem_stage-memory _ _ _ _ _ _ _ h
    ∙ rw
        (wb_stage_memory (ltb 0 s.d_stall_left) s.pipeline.mem_inst s.simulator s.dyn_retired
          (add64 s.pc 4))
        refl
