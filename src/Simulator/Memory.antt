-- ===== src/Simulator/Memory.antt =====
-- The stages of src/simulator.cpp keep the memory one of bytes, and its number of cells.
use cos375_project.Base.{
  ℕ, ◌+◌, ◌-◌, ◌≡◌, refl, ◌∙◌, arith, true, not, ◌||◌, if-keeps, add64, length,
}
use native.Mathlib.Decide.{dec_le}
use cos375_project.MemoryStore.{MemoryStore, Ret, zero_ret, einval, valid_size, set_mem_value}
use cos375_project.MemoryStore.Bytes.{length-write_le}
use cos375_project.MemoryStore.Access.{
  IsMemory, offset, set_mem_value_inside, set_mem_value_outside,
}
use cos375_project.MemoryStore.Laws.{set_mem_value-IsMemory}
use cos375_project.Simulator.{Instruction, Simulator}
use cos375_project.Simulator.MemAccess.{sim_addr_gen, access_size, stored, sim_mem_access}
use cos375_project.Simulator.Stages.{sim_mem, sim_instruction, execute}

-- A memory of bytes with this number of cells.
pub record IsMemoryOf (cells : ℕ) (mem : MemoryStore) : Type 0 where
  pub memory : IsMemory mem
  pub count : length mem.mem_arr ≡ cells

access_size-valid_size : (funct3 : ℕ) → valid_size (access_size funct3) ≡ true
unfolding access_size valid_size
access_size-valid_size funct3 = ground arith

pub set_mem_value-length :
    (m : MemoryStore) (address value size : ℕ)
    → IsMemory m
    → valid_size size ≡ true
    → length (set_mem_value m address value size).1.mem_arr ≡ length m.mem_arr
set_mem_value-length m address value size mem sized =
    elim (dec_le (offset m address + size) (length m.mem_arr)) [
      | yes p ↦
          rw (set_mem_value_inside m address value size mem sized p)
            (length-write_le size (offset m address) value m.mem_arr)
      | no p ↦
          rw (set_mem_value_outside m address value size mem sized p) (
            length-write_le (length m.mem_arr - offset m address) (offset m address) value
              m.mem_arr)
    ]

module _ (cells : ℕ) where
  stored_memory : (inst : Instruction) (r : Ret × MemoryStore) → (stored inst r).1 ≡ r.1
  unfolding stored
  stored_memory inst (zero_ret, mem) = refl
  stored_memory inst (einval, mem) = refl

  sim_mem_access-IsMemoryOf :
      (inst : Instruction) (mem : MemoryStore)
      → IsMemoryOf cells mem
      → IsMemoryOf cells (sim_mem_access inst mem).1
  unfolding sim_mem_access
  sim_mem_access-IsMemoryOf inst mem h =
      let size = access_size inst.funct3 in
      let sized = access_size-valid_size inst.funct3 in
      let P : Instruction × MemoryStore → Type 0 = (λ r. IsMemoryOf cells r.1) in
      if-keeps P inst.reads_mem _ _ h (
        if-keeps P inst.writes_mem _ _
          (rw (stored_memory inst (set_mem_value mem inst.mem_address inst.op2_val size)) (record {
            memory = set_mem_value-IsMemory mem inst.mem_address inst.op2_val size h.memory sized;
            count =
                set_mem_value-length mem inst.mem_address inst.op2_val size h.memory sized
                ∙ h.count;
          }))
          h)

  pub sim_mem-IsMemoryOf :
      (sim : Simulator) (inst : Instruction)
      → IsMemoryOf cells sim.memory
      → IsMemoryOf cells (sim_mem sim inst).1.memory
  unfolding sim_mem
  sim_mem-IsMemoryOf sim inst h =
      let P : Instruction × Simulator → Type 0 = (λ r. IsMemoryOf cells r.1.memory) in
      if-keeps P (not inst.is_legal || inst.mem_exception) _ _ h (
        if-keeps P (inst.reads_mem || inst.writes_mem) _ _
          (sim_mem_access-IsMemoryOf (sim_addr_gen inst) sim.memory h) h)

  execute-IsMemoryOf :
      (sim : Simulator) (inst : Instruction)
      → IsMemoryOf cells sim.memory
      → IsMemoryOf cells (execute sim inst).1.memory
  unfolding execute
  execute-IsMemoryOf sim inst h =
      if-keeps (λ (r : Instruction × MemoryStore). IsMemoryOf cells r.1) _ _ _
        (sim_mem_access-IsMemoryOf _ sim.memory h) h

  pub sim_instruction-IsMemoryOf :
      (sim : Simulator) (pc : ℕ)
      → IsMemoryOf cells sim.memory
      → IsMemoryOf cells (sim_instruction sim pc).1.memory
  unfolding sim_instruction
  sim_instruction-IsMemoryOf sim pc h =
      if-keeps (λ (r : Instruction × Simulator). IsMemoryOf cells r.1.memory) _ _ _ h
        (execute-IsMemoryOf (record sim { din = add64 sim.din 1 }) _ h)
