-- ===== src/Cycle/Exceptions.antt =====
-- `runCycles` (src/cycle.cpp) when an instruction reaches WB with a memory exception.
use cos375_project.Base.{
  ℕ, ◌≡◌, refl, ◌∙◌, ap, arith, Bool, true, false, ◌||◌, inl, inr, Bool-cases,
}
use cos375_project.Utilities.{success, squashed}
use cos375_project.Cache.{Cache}
use cos375_project.Simulator.{Instruction, Simulator}
use cos375_project.Simulator.Stages.{sim_mem, sim_id}
use cos375_project.Simulator.MemAccess.{sim_addr_gen}
use cos375_project.Cycle.{CycleState, nop}
use cos375_project.Cycle.Forward.{forward_store}
use cos375_project.Cycle.Stages.{
  Redirect, wb_stage, mem_stage, enter_mem, time_access, id_stage, is_squashed, decoded,
}
use cos375_project.Cycle.Step.{cycle, squash_younger}

-- What stands behind the faulting instruction, after the cycle.
pub record IsSquashed (s s' : CycleState) : Type 0 where
  pub id_inst : s'.pipeline.id_inst ≡ nop squashed
  pub ex_inst : s'.pipeline.ex_inst ≡ nop squashed
  pub mem_inst : s'.pipeline.mem_inst ≡ nop squashed
  pub wb_inst : s'.pipeline.wb_inst ≡ nop squashed
  pub dyn_retired : s'.dyn_retired ≡ s.dyn_retired
  pub registers : s'.simulator.registers ≡ s.simulator.registers

-- `simID` numbers instructions; it changes neither the registers nor the memory.
pub sim_id_keeps :
    (sim : Simulator) (inst : Instruction)
    → ((sim_id sim inst).1.registers ≡ sim.registers) × ((sim_id sim inst).1.memory ≡ sim.memory)
unfolding sim_id
sim_id_keeps sim inst = (ground arith, ground arith)

decoded_keeps :
    (redirect : Redirect) (left : ℕ) (r : Instruction × Simulator)
    → (decoded redirect left r).simulator ≡ r.1
unfolding decoded
decoded_keeps redirect left (inst, sim) = refl

pub id_stage_keeps :
    (frozen squash exception stall : Bool) (old_id old_if : Instruction) (sim : Simulator)
    (redirect : Redirect) (left : ℕ)
    → let sim' =
        (id_stage frozen squash exception stall old_id old_if sim redirect left).simulator in
      (sim'.registers ≡ sim.registers) × (sim'.memory ≡ sim.memory)
unfolding id_stage
id_stage_keeps frozen squash exception stall old_id old_if sim redirect left = (
  ground (arith, decoded_keeps redirect left (sim_id sim old_if), sim_id_keeps sim old_if),
  ground (arith, decoded_keeps redirect left (sim_id sim old_if), sim_id_keeps sim old_if),
)

pub sim_mem_registers :
    (sim : Simulator) (inst : Instruction) → (sim_mem sim inst).1.registers ≡ sim.registers
unfolding sim_mem
sim_mem_registers sim inst = ground arith

pub time_access_simulator :
    (input : Instruction) (c : Cache) (left : ℕ) (r : Instruction × Simulator)
    → (time_access input c left r).simulator ≡ r.1
unfolding time_access
time_access_simulator input c left (done, sim) = ground arith

-- The store in EX, with its address and its forwarded data, as MEM runs it.
abbrev pub store_in_ex : CycleState → Instruction
store_in_ex s = sim_addr_gen (forward_store s.pipeline.ex_inst s.pipeline.wb_inst)

forward_store_writes : (ex wb : Instruction) → (forward_store ex wb).writes_mem ≡ ex.writes_mem
unfolding forward_store
forward_store_writes ex wb = refl

enter_mem_simulator :
    (ex wb : Instruction) (sim : Simulator) (c : Cache) (left : ℕ)
    → ((forward_store ex wb).reads_mem || (forward_store ex wb).writes_mem) ≡ true
    → (enter_mem ex wb sim c left).simulator ≡ (sim_mem sim (sim_addr_gen (forward_store ex wb))).1
unfolding enter_mem
enter_mem_simulator ex wb sim c left touches = rw touches (time_access_simulator _ _ _ _)

or-true : (a b : Bool) → b ≡ true → (a || b) ≡ true
or-true a b e = ground arith

mem_stage_store :
    (old_mem ex wb : Instruction) (sim : Simulator) (c : Cache) (left : ℕ)
    → ex.is_nop ≡ false
    → is_squashed ex.status ≡ false
    → ex.writes_mem ≡ true
    → (mem_stage false old_mem ex wb sim c left).simulator
      ≡ (sim_mem sim (sim_addr_gen (forward_store ex wb))).1
unfolding mem_stage
mem_stage_store old_mem ex wb sim c left nop_no squash_no writes =
    let touches = or-true (forward_store ex wb).reads_mem _ (forward_store_writes ex wb ∙ writes) in
    ground (arith, nop_no, squash_no, enter_mem_simulator ex wb sim c left touches)

enter_mem_registers :
    (ex wb : Instruction) (sim : Simulator) (c : Cache) (left : ℕ)
    → (enter_mem ex wb sim c left).simulator.registers ≡ sim.registers
unfolding enter_mem
enter_mem_registers ex wb sim c left =
    elim (Bool-cases ((forward_store ex wb).reads_mem || (forward_store ex wb).writes_mem)) [
      | inl y ↦ rw (y, time_access_simulator _ _ _ _) (sim_mem_registers sim _)
      | inr n ↦ rw n (sim_mem_registers sim _)
    ]

pub mem_stage_registers :
    (d : Bool) (old_mem ex wb : Instruction) (sim : Simulator) (c : Cache) (left : ℕ)
    → (mem_stage d old_mem ex wb sim c left).simulator.registers ≡ sim.registers
unfolding mem_stage
mem_stage_registers d old_mem ex wb sim c left =
    ground (arith, enter_mem_registers ex wb sim c left)

-- Where the D-cache is not waited for and the instruction in MEM, not a NOP, has a memory
-- exception, the cycle squashes it and the instructions in ID, EX and MEM, retires nothing, changes
-- no register, and the run goes on.
pub cycle_squashes :
    (s : CycleState)
    → s.d_stall_left ≡ 0
    → s.pipeline.mem_inst.is_nop ≡ false
    → s.pipeline.mem_inst.mem_exception ≡ true
    → IsSquashed s (cycle s).0 × ((cycle s).1 ≡ success)
unfolding cycle wb_stage squash_younger
cycle_squashes s idle h e = (
  record {
    id_inst = rw (idle, h, e) refl;
    ex_inst = rw (idle, h, e) refl;
    mem_inst = rw (idle, h, e) refl;
    wb_inst = rw (idle, h, e) refl;
    dyn_retired = rw (idle, h, e) refl;
    registers =
        rw (idle, h, e) ((id_stage_keeps _ _ _ _ _ _ _ _ _).0 ∙ mem_stage_registers _ _ _ _ _ _ _);
  },
  rw (idle, h, e) refl,
)

cycle_memory :
    (s : CycleState)
    → s.d_stall_left ≡ 0
    → s.pipeline.mem_inst.is_nop ≡ false
    → s.pipeline.mem_inst.mem_exception ≡ true
    → s.pipeline.ex_inst.is_nop ≡ false
    → is_squashed s.pipeline.ex_inst.status ≡ false
    → s.pipeline.ex_inst.writes_mem ≡ true
    → (cycle s).0.simulator.memory ≡ (sim_mem s.simulator (store_in_ex s)).1.memory
unfolding cycle wb_stage
cycle_memory s idle h e nop_no squash_no writes =
    rw (idle, h, e)
      ((id_stage_keeps _ _ _ _ _ _ _ _ _).1
        ∙ ap (λ sim. sim.memory) (mem_stage_store _ _ _ _ _ _ nop_no squash_no writes))

-- Where the D-cache is not waited for, the instruction in MEM, not a NOP, has a memory exception,
-- and EX holds a store that is neither a NOP nor squashed, the cycle squashes the store and yet has
-- it write the memory.
pub cycle_stores_behind :
    (s : CycleState)
    → s.d_stall_left ≡ 0
    → s.pipeline.mem_inst.is_nop ≡ false
    → s.pipeline.mem_inst.mem_exception ≡ true
    → s.pipeline.ex_inst.is_nop ≡ false
    → is_squashed s.pipeline.ex_inst.status ≡ false
    → s.pipeline.ex_inst.writes_mem ≡ true
    → ((cycle s).0.pipeline.mem_inst ≡ nop squashed)
      × ((cycle s).0.simulator.memory ≡ (sim_mem s.simulator (store_in_ex s)).1.memory)
cycle_stores_behind s idle h e nop_no squash_no writes =
    ((cycle_squashes s idle h e).0.mem_inst, cycle_memory s idle h e nop_no squash_no writes)
