-- ===== src/Cycle/Nops/Same.antt =====
-- The functions of src/simulator.cpp that a stage of src/cycle.cpp applies to an instruction do not
-- change what it was decoded to.
use cos375_project.Base.{
  ℕ, ◌≡◌, refl, ◌∙◌, arith, Bool, true, false, not, ◌||◌, if◌then◌else◌, inl, inr,
}
use cos375_project.MemoryStore.{MemoryStore, Ret, zero_ret, einval}
use cos375_project.Simulator.{Instruction, Simulator}
use cos375_project.Simulator.ArithLogic.{mask_shift, sim_arith_logic}
use cos375_project.Simulator.MemAccess.{sim_addr_gen, loaded, stored, sim_mem_access}
use cos375_project.Simulator.Stages.{sim_ex, sim_mem, sim_wb}
use cos375_project.Cycle.Youngest.{IsQuiet}

-- Two states of one instruction on its way: what it was decoded to has not changed.
pub record IsSame (a b : Instruction) : Type 0 where
  pub is_nop : a.is_nop ≡ b.is_nop
  pub writes_rd : a.writes_rd ≡ b.writes_rd

pub IsSame-IsQuiet : (a b : Instruction) → IsSame a b → IsQuiet b → IsQuiet a
IsSame-IsQuiet a b same (inl e) = inl (same.is_nop ∙ e)
IsSame-IsQuiet a b same (inr e) = inr (same.writes_rd ∙ e)

pub IsSame-refl : (a : Instruction) → IsSame a a
IsSame-refl a = record { is_nop = refl; writes_rd = refl }

pub IsSame-trans : (a b c : Instruction) → IsSame a b → IsSame b c → IsSame a c
IsSame-trans a b c f g = record {
  is_nop = f.is_nop ∙ g.is_nop;
  writes_rd = f.writes_rd ∙ g.writes_rd;
}

pub IsSame-if :
    {S : Type 0} (b : Bool) (x y : Instruction × S) (inst : Instruction)
    → IsSame x.0 inst
    → IsSame y.0 inst
    → IsSame (if b then x else y).0 inst
IsSame-if true x y inst same _ = same
IsSame-if false x y inst _ same = same

pub sim_ex-IsSame : (inst : Instruction) → IsSame (sim_ex inst) inst
unfolding sim_ex sim_arith_logic mask_shift
sim_ex-IsSame inst = record { is_nop = ground arith; writes_rd = ground arith }

pub sim_wb-IsSame : (sim : Simulator) (inst : Instruction) → IsSame (sim_wb sim inst).0 inst
unfolding sim_wb
sim_wb-IsSame sim inst = record { is_nop = ground arith; writes_rd = ground arith }

pub loaded-IsSame : (inst : Instruction) (r : Ret × ℕ) → IsSame (loaded inst r) inst
unfolding loaded
loaded-IsSame inst (zero_ret, value) = record { is_nop = refl; writes_rd = refl }
loaded-IsSame inst (einval, value) = record { is_nop = refl; writes_rd = refl }

pub stored-IsSame : (inst : Instruction) (r : Ret × MemoryStore) → IsSame (stored inst r).0 inst
unfolding stored
stored-IsSame inst (zero_ret, value) = record { is_nop = refl; writes_rd = refl }
stored-IsSame inst (einval, value) = record { is_nop = refl; writes_rd = refl }

pub sim_mem_access-IsSame :
    (inst : Instruction) (mem : MemoryStore) → IsSame (sim_mem_access inst mem).0 inst
unfolding sim_mem_access
sim_mem_access-IsSame inst mem =
    IsSame-if inst.reads_mem _ _ inst (loaded-IsSame inst _)
      (IsSame-if inst.writes_mem _ _ inst (stored-IsSame inst _) (IsSame-refl inst))

pub sim_addr_gen-IsSame : (inst : Instruction) → IsSame (sim_addr_gen inst) inst
unfolding sim_addr_gen
sim_addr_gen-IsSame inst = record { is_nop = refl; writes_rd = refl }

pub sim_mem-IsSame : (sim : Simulator) (inst : Instruction) → IsSame (sim_mem sim inst).0 inst
unfolding sim_mem
sim_mem-IsSame sim inst =
    let accessed = sim_mem_access-IsSame (sim_addr_gen inst) sim.memory in
    let same = IsSame-trans _ _ _ accessed (sim_addr_gen-IsSame inst) in
    IsSame-if (not inst.is_legal || inst.mem_exception) _ _ inst
      (record { is_nop = refl; writes_rd = refl })
      (IsSame-if (inst.reads_mem || inst.writes_mem) _ _ inst
        (record { is_nop = same.is_nop; writes_rd = same.writes_rd })
        (record { is_nop = refl; writes_rd = refl }))
