-- ===== src/Cycle/Nops/Back.antt =====
-- The stages of `runCycles` (src/cycle.cpp) from WB back to ID make no NOP that writes a register.
use cos375_project.Base.{
  if-keeps, if-cases, ℕ, ◌≡◌, refl, ◌∙◌, arith, Bool, false, not, ◌&&◌, ◌||◌, ◌==◌, inl, inr,
}
use cos375_project.Cache.{Cache}
use cos375_project.Simulator.{Instruction, Simulator}
use cos375_project.Simulator.Decode.{
  sim_decode, decode_fields, decode_op, halt_word, nop_word, sim_operand_collection,
}
use cos375_project.Simulator.NextPc.{sim_next_pc_resolution}
use cos375_project.Simulator.MemAccess.{sim_addr_gen}
use cos375_project.Simulator.Stages.{count_instruction, finish_id, sim_id, sim_ex, sim_mem, sim_wb}
use cos375_project.Cycle.{nop}
use cos375_project.Cycle.Forward.{forward_ex, forward_from, forward_store}
use cos375_project.Cycle.Stages.{
  WbResult, MemResult, Redirect, IdResult, set_status, is_squashed, retire, wb_stage, time_access,
  enter_mem, mem_stage, ex_stage, decoded, id_stage,
}
use cos375_project.Cycle.Youngest.{IsQuiet}
use cos375_project.Cycle.Nops.Same.{
  IsSame-IsQuiet, IsSame-trans, IsSame-if, sim_ex-IsSame, sim_wb-IsSame, sim_addr_gen-IsSame,
  sim_mem-IsSame, IsSame,
}

pub IsQuiet-set_status :
    (status : _) (inst : Instruction) → IsQuiet inst → IsQuiet (set_status status inst)
IsQuiet-set_status status inst quiet = quiet

pub retire-IsQuiet :
    (old_mem : Instruction) (n pc : ℕ) (r : Instruction × Simulator)
    → IsQuiet r.0
    → IsQuiet (retire old_mem n pc r).new_wb
unfolding retire
retire-IsQuiet old_mem n pc (written, sim) quiet =
    if-keeps IsQuiet written.is_nop (set_status old_mem.status written) written quiet quiet

pub nop-IsQuiet : (status : _) → IsQuiet (nop status)
nop-IsQuiet status = inr refl

pub wb_stage-IsQuiet :
    (d : Bool) (old_mem : Instruction) (sim : Simulator) (n pc : ℕ)
    → IsQuiet old_mem
    → IsQuiet (wb_stage d old_mem sim n pc).new_wb
unfolding wb_stage
wb_stage-IsQuiet d old_mem sim n pc quiet =
    if-keeps (λ (r : WbResult). IsQuiet r.new_wb) d _ _ (inr refl)
      (if-keeps (λ (r : WbResult). IsQuiet r.new_wb) (not old_mem.is_nop && old_mem.mem_exception) _
        _ (inr refl)
        (retire-IsQuiet old_mem n pc (sim_wb sim old_mem)
          (IsSame-IsQuiet _ old_mem (sim_wb-IsSame sim old_mem) quiet)))

pub forward_store-IsQuiet : (ex wb : Instruction) → IsQuiet ex → IsQuiet (forward_store ex wb)
unfolding forward_store
forward_store-IsQuiet ex wb quiet = quiet

pub time_access-IsQuiet :
    (input : Instruction) (c : Cache) (left : ℕ) (r : Instruction × Simulator)
    → IsQuiet r.0
    → IsQuiet (time_access input c left r).new_mem
unfolding time_access
time_access-IsQuiet input c left (done, sim) quiet =
    if-keeps (λ (r : MemResult). IsQuiet r.new_mem) (not done.mem_exception && done.is_legal) _ _
      quiet quiet

pub sim_mem-IsQuiet :
    (sim : Simulator) (inst : Instruction) → IsQuiet inst → IsQuiet (sim_mem sim inst).0
sim_mem-IsQuiet sim inst quiet = IsSame-IsQuiet _ inst (sim_mem-IsSame sim inst) quiet

pub enter_mem-IsQuiet :
    (ex wb : Instruction) (sim : Simulator) (c : Cache) (left : ℕ)
    → IsQuiet ex
    → IsQuiet (enter_mem ex wb sim c left).new_mem
unfolding enter_mem
enter_mem-IsQuiet ex wb sim c left quiet =
    let input = forward_store ex wb in
    let stored_quiet = forward_store-IsQuiet ex wb quiet in
    let addressed_quiet = IsSame-IsQuiet _ input (sim_addr_gen-IsSame input) stored_quiet in
    if-keeps (λ (r : MemResult). IsQuiet r.new_mem) (input.reads_mem || input.writes_mem) _ _
      (time_access-IsQuiet (sim_addr_gen input) c left (sim_mem sim (sim_addr_gen input))
        (sim_mem-IsQuiet sim (sim_addr_gen input) addressed_quiet))
      (sim_mem-IsQuiet sim input stored_quiet)

pub mem_stage-IsQuiet :
    (d : Bool) (old_mem ex wb : Instruction) (sim : Simulator) (c : Cache) (left : ℕ)
    → IsQuiet old_mem
    → IsQuiet ex
    → IsQuiet (mem_stage d old_mem ex wb sim c left).new_mem
unfolding mem_stage
mem_stage-IsQuiet d old_mem ex wb sim c left held entered =
    let done = enter_mem-IsQuiet ex wb sim c left entered in
    if-keeps (λ (r : MemResult). IsQuiet r.new_mem) d _ _ held
      (if-keeps (λ (r : MemResult). IsQuiet r.new_mem)
        (not ex.is_nop && not (is_squashed ex.status)) _ _
        (if-keeps IsQuiet (enter_mem ex wb sim c left).new_mem.is_nop _ _ done done) (inr refl))

pub forward_ex-IsSame : (id ex mem wb : Instruction) → IsSame (forward_ex id ex mem wb) id
unfolding forward_ex forward_from
forward_ex-IsSame id ex mem wb = record { is_nop = refl; writes_rd = refl }

pub ex_stage-IsQuiet :
    (d hazard : Bool) (id ex mem wb : Instruction)
    → IsQuiet id
    → IsQuiet ex
    → IsQuiet (ex_stage d hazard id ex mem wb)
unfolding ex_stage
ex_stage-IsQuiet d hazard id ex mem wb entered held =
    let input = forward_ex id ex mem wb in
    let same = IsSame-trans _ _ _ (sim_ex-IsSame input) (forward_ex-IsSame id ex mem wb) in
    let done = IsSame-IsQuiet _ id same entered in
    if-keeps IsQuiet d _ _ held (
      if-keeps IsQuiet (not id.is_nop && not id.is_legal) _ _ (inr refl) (
        if-keeps IsQuiet hazard _ _ (inr refl)
          (if-keeps IsQuiet (sim_ex input).is_nop _ _ done done)))

-- Decoding makes no NOP but of the word of `nop`.
pub decode_op_nop : (inst : Instruction) → (decode_op inst).is_nop ≡ inst.is_nop
unfolding decode_op
decode_op_nop inst = ground arith

-- A word becomes a NOP without the signal that its instruction did not have.
pub sim_decode-IsQuiet :
    (inst : Instruction) → inst.is_nop ≡ false → inst.writes_rd ≡ false → IsQuiet (sim_decode inst)
unfolding sim_decode decode_fields
sim_decode-IsQuiet inst h w =
    let other = decode_op_nop (decode_fields inst) in
    if-keeps IsQuiet (inst.instruction == halt_word) _ _ (inr w)
      (if-keeps IsQuiet (inst.instruction == nop_word) _ _ (inr w) (inl (other ∙ h)))

pub count_instruction-IsSame :
    (sim : Simulator) (inst : Instruction) → IsSame (count_instruction sim inst).0 inst
unfolding count_instruction
count_instruction-IsSame sim inst =
    IsSame-if (not inst.is_nop && sim.count_din) _ _ inst
      (record { is_nop = refl; writes_rd = refl }) (record { is_nop = refl; writes_rd = refl })

pub finish_id-IsSame : (r : Instruction × Simulator) → IsSame (finish_id r).0 r.0
unfolding finish_id sim_next_pc_resolution sim_operand_collection
finish_id-IsSame (inst, sim) =
    IsSame-if (not inst.is_legal) _ _ inst (record { is_nop = refl; writes_rd = refl })
      (record { is_nop = refl; writes_rd = refl })

pub sim_id-IsQuiet :
    (sim : Simulator) (inst : Instruction)
    → inst.is_nop ≡ false
    → inst.writes_rd ≡ false
    → IsQuiet (sim_id sim inst).0
unfolding sim_id
sim_id-IsQuiet sim inst h w =
    let same =
      IsSame-trans _ _ _ (finish_id-IsSame (count_instruction sim (sim_decode inst)))
        (count_instruction-IsSame sim (sim_decode inst)) in
    IsSame-IsQuiet _ _ same (sim_decode-IsQuiet inst h w)

pub decoded-IsQuiet :
    (redirect : Redirect) (left : ℕ) (r : Instruction × Simulator)
    → IsQuiet r.0
    → IsQuiet (decoded redirect left r).new_id
unfolding decoded
decoded-IsQuiet redirect left (inst, sim) quiet = quiet

pub id_stage-IsQuiet :
    (frozen squash exception stall : Bool) (old_id old_if : Instruction) (sim : Simulator)
    (redirect : Redirect) (left : ℕ)
    → IsQuiet old_id
    → old_if.writes_rd ≡ false
    → IsQuiet (id_stage frozen squash exception stall old_id old_if sim redirect left).new_id
unfolding id_stage
id_stage-IsQuiet frozen squash exception stall old_id old_if sim redirect left held w =
    let P : IdResult → Type 0 = (λ r. IsQuiet r.new_id) in
    if-keeps P frozen _ _ held (
      if-keeps P squash _ _ (inr refl) (
        if-keeps P (redirect.branch_taken && not redirect.id_illegal_exception && not exception) _ _
          (inr refl)
          (if-keeps P stall _ _ (inr refl) (
            if-cases P old_if.is_nop _ _ (λ _. inr refl)
              (λ h.
                decoded-IsQuiet redirect left (sim_id sim old_if)
                  (sim_id-IsQuiet sim old_if h w))))))
