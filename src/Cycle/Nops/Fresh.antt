-- ===== src/Cycle/Nops/Fresh.antt =====
-- The IF stage of `runCycles` (src/cycle.cpp) shows instructions that are not decoded yet.
use cos375_project.Base.{if-keeps, ℕ, ◌≡◌, refl, Bool, false, not, ◌&&◌}
use cos375_project.Utilities.{speculative}
use cos375_project.MemoryStore.{Ret, zero_ret, einval}
use cos375_project.Cache.{Cache, access, cache_read}
use cos375_project.Simulator.{Instruction, Simulator, blank}
use cos375_project.Simulator.Decode.{fetched, sim_fetch}
use cos375_project.Simulator.Stages.{sim_if}
use cos375_project.Cycle.Stages.{Redirect, set_status, is_jump}
use cos375_project.Cycle.Fetch.{
  IfResult, fetch_at, fetch_illegal, fetch_next, fetch_in_d_stall, fetch_in_hazard, if_stage,
}

pub IsFresh-fetched :
    (inst : Instruction) (r : Ret × ℕ) → (fetched inst r).writes_rd ≡ inst.writes_rd
unfolding fetched
IsFresh-fetched inst (zero_ret, value) = refl
IsFresh-fetched inst (einval, value) = refl

pub sim_if_writes : (sim : Simulator) (pc : ℕ) → (sim_if sim pc).writes_rd ≡ false
unfolding sim_if sim_fetch
sim_if_writes sim pc = IsFresh-fetched (record blank { pc = pc }) _

-- IF holds an instruction that is not decoded yet.
module _ (sim : Simulator) (c : Cache) (left : ℕ) where
  abbrev pub IsFresh : IfResult → Type 0
  IsFresh r = r.new_if.writes_rd ≡ false

  pub fetch_at-IsFresh :
      (pc : ℕ) (missed : Instruction) (stall : ℕ)
      → missed.writes_rd ≡ false
      → IsFresh (fetch_at sim c left pc missed stall)
  unfolding fetch_at
  fetch_at-IsFresh pc missed stall w =
      if-keeps IsFresh (access c pc cache_read).1 _ _ (sim_if_writes sim pc) w

  pub fetch_next-IsFresh :
      (pc : ℕ) (new_id : Instruction) → IsFresh (fetch_next sim c left pc new_id)
  unfolding fetch_next
  fetch_next-IsFresh pc new_id =
      if-keeps IsFresh (access c pc cache_read).1 _ _
        (if-keeps (λ (i : Instruction). i.writes_rd ≡ false) (not new_id.is_nop && is_jump new_id) _
          _ (sim_if_writes sim pc) (sim_if_writes sim pc))
        refl

  pub fetch_in_d_stall-IsFresh :
      (i : Bool) (old_if : Instruction) (pc : ℕ)
      → old_if.writes_rd ≡ false
      → IsFresh (fetch_in_d_stall sim c left i old_if pc)
  unfolding fetch_in_d_stall
  fetch_in_d_stall-IsFresh i old_if pc w =
      if-keeps IsFresh i _ _ refl (if-keeps IsFresh old_if.is_nop _ _ (sim_if_writes sim pc) w)

  pub fetch_in_hazard-IsFresh :
      (i b : Bool) (old_if : Instruction) (pc : ℕ)
      → old_if.writes_rd ≡ false
      → IsFresh (fetch_in_hazard sim c left i b old_if pc)
  unfolding fetch_in_hazard
  fetch_in_hazard-IsFresh i b old_if pc w = if-keeps IsFresh i _ _ refl (
      if-keeps (λ (i : Instruction). i.writes_rd ≡ false) b (set_status speculative old_if) old_if w
        w)

  pub if_stage-IsFresh :
      (e : Bool) (redirect : Redirect) (d h b i j : Bool) (pc : ℕ) (old_if new_id : Instruction)
      → old_if.writes_rd ≡ false
      → IsFresh (if_stage sim c left e redirect d h b i j pc old_if new_id)
  unfolding if_stage fetch_illegal
  if_stage-IsFresh e redirect d h b i j pc old_if new_id w =
      if-keeps IsFresh e _ _ (fetch_at-IsFresh _ _ _ refl) (
        if-keeps IsFresh redirect.id_illegal_exception _ _ refl (
          if-keeps IsFresh redirect.branch_taken _ _ (fetch_at-IsFresh _ _ _ refl) (
            if-keeps IsFresh d _ _ (fetch_in_d_stall-IsFresh i old_if pc w) (
              if-keeps IsFresh h _ _ (fetch_in_hazard-IsFresh i b old_if pc w) (
                if-keeps IsFresh i _ _ refl (
                  if-keeps IsFresh j _ _ (sim_if_writes sim pc) (fetch_next-IsFresh pc new_id)))))))
