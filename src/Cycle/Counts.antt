-- ===== src/Cycle/Counts.antt =====
-- The counters of a cycle, and what never changes.
use cos375_project.Base.{
  ℕ, ◌≡◌, refl, arith, ◌⊎◌, inl, inr, Bool, true, false, not, ◌||◌, ◌&&◌, Bool-cases, add64,
  if◌then◌else◌,
}
use cos375_project.Simulator.{Instruction, Simulator}
use cos375_project.Cache.{Cache, CacheOperation, cache_read, cache_write, access}
use cos375_project.Cycle.{CycleState}
use cos375_project.Cycle.Stages.{wb_stage, mem_stage, time_access, enter_mem, is_squashed}
use cos375_project.Cycle.Forward.{forward_store}
use cos375_project.Simulator.MemAccess.{sim_addr_gen}
use cos375_project.Simulator.Stages.{sim_mem}
use cos375_project.Cycle.Fetch.{
  fetch_at, fetch_illegal, fetch_next, fetch_in_d_stall, fetch_in_hazard, if_stage,
}
use cos375_project.Cycle.Step.{cycle}

wb_stage_retired :
    (d : Bool) (old_mem : Instruction) (sim : Simulator) (n pc : ℕ)
    → ((wb_stage d old_mem sim n pc).dyn_retired ≡ n)
      ⊎ ((wb_stage d old_mem sim n pc).dyn_retired ≡ add64 n 1)
unfolding wb_stage
wb_stage_retired d old_mem sim n pc = ground arith

-- A cache after a cycle: as it was, or after one access.
abbrev pub AtMostOnce : Cache → Cache → Type 0
AtMostOnce c c' =
    (c' ≡ c) ⊎ ((address : ℕ) × (op : CacheOperation) × (c' ≡ (access c address op).0))

module _ (sim : Simulator) (c : Cache) (left : ℕ) where
  fetch_at_once :
      (pc : ℕ) (missed : Instruction) (stall : ℕ)
      → AtMostOnce c (fetch_at sim c left pc missed stall).i_cache
  unfolding fetch_at
  fetch_at_once pc missed stall = inr (pc, cache_read, ground arith)

  fetch_next_once :
      (pc : ℕ) (new_id : Instruction) → AtMostOnce c (fetch_next sim c left pc new_id).i_cache
  unfolding fetch_next
  fetch_next_once pc new_id = inr (pc, cache_read, ground arith)

  fetch_in_d_stall_once :
      (i : Bool) (old_if : Instruction) (pc : ℕ)
      → AtMostOnce c (fetch_in_d_stall sim c left i old_if pc).i_cache
  unfolding fetch_in_d_stall
  fetch_in_d_stall_once i old_if pc = inl (ground arith)

  fetch_in_hazard_once :
      (i b : Bool) (old_if : Instruction) (pc : ℕ)
      → AtMostOnce c (fetch_in_hazard sim c left i b old_if pc).i_cache
  unfolding fetch_in_hazard
  fetch_in_hazard_once i b old_if pc = inl (ground arith)

  -- The tests of the stage in their order, each against the rest.
  if_stage_once :
      (e illegal taken : Bool) (target : ℕ) (d h b i j : Bool) (pc : ℕ)
      (old_if new_id : Instruction)
      → AtMostOnce c
          (if_stage sim c left e
            (record { id_illegal_exception = illegal; branch_taken = taken; next_pc = target })
            d
            h
            b
            i
            j
            pc
            old_if
            new_id).i_cache
  unfolding if_stage fetch_illegal
  if_stage_once true _ _ target d h b i j pc old_if new_id = fetch_at_once _ _ _
  if_stage_once false true _ target d h b i j pc old_if new_id = inr (pc, cache_read, refl)
  if_stage_once false false true target d h b i j pc old_if new_id = fetch_at_once _ _ _
  if_stage_once false false false target true h b i j pc old_if new_id =
      fetch_in_d_stall_once i old_if pc
  if_stage_once false false false target false true b i j pc old_if new_id =
      fetch_in_hazard_once i b old_if pc
  if_stage_once false false false target false false b true j pc old_if new_id = inl refl
  if_stage_once false false false target false false b false true pc old_if new_id = inl refl
  if_stage_once false false false target false false b false false pc old_if new_id =
      fetch_next_once pc new_id

time_access_once :
    (input : Instruction) (c : Cache) (left : ℕ) (r : Instruction × Simulator)
    → AtMostOnce c (time_access input c left r).d_cache
unfolding time_access
time_access_once input c left (done, sim) =
    elim (Bool-cases (not done.mem_exception && done.is_legal)) [
      | inl y ↦
          inr (
            input.mem_address,
            (if input.writes_mem then cache_write else cache_read),
            ground arith,
          )
      | inr n ↦ inl (ground arith)
    ]

enter_mem_once :
    (old_ex old_wb : Instruction) (sim : Simulator) (c : Cache) (left : ℕ)
    → AtMostOnce c (enter_mem old_ex old_wb sim c left).d_cache
unfolding enter_mem
enter_mem_once old_ex old_wb sim c left =
    elim (Bool-cases
      ((forward_store old_ex old_wb).reads_mem || (forward_store old_ex old_wb).writes_mem)) [
        | inl y ↦
            let addressed = sim_addr_gen (forward_store old_ex old_wb) in
            rw (enter_mem, y) (time_access_once addressed c left (sim_mem sim addressed))
        | inr n ↦ rw (enter_mem, n) (inl refl)
      ]

mem_stage_once :
    (d : Bool) (old_mem old_ex old_wb : Instruction) (sim : Simulator) (c : Cache) (left : ℕ)
    → AtMostOnce c (mem_stage d old_mem old_ex old_wb sim c left).d_cache
unfolding mem_stage
mem_stage_once true old_mem old_ex old_wb sim c left = inl refl
mem_stage_once false old_mem old_ex old_wb sim c left =
    elim (Bool-cases (not old_ex.is_nop && not (is_squashed old_ex.status))) [
      | inl y ↦ rw (mem_stage, y) (enter_mem_once old_ex old_wb sim c left)
      | inr n ↦ rw (mem_stage, n) (inl refl)
    ]

if_cases : (b : Bool) (x y : ℕ) → ((if b then x else y) ≡ y) ⊎ ((if b then x else y) ≡ x)
if_cases true x y = inr refl
if_cases false x y = inl refl

-- A cycle adds one to the cycle count, adds at most one to the retired instructions and at most one
-- to the load-use stalls, and makes at most one access to each cache.
pub cycle_counts :
    (s : CycleState)
    → let s' = (cycle s).0 in
      (s'.cycle_count ≡ add64 s.cycle_count 1)
      × ((s'.dyn_retired ≡ s.dyn_retired) ⊎ (s'.dyn_retired ≡ add64 s.dyn_retired 1))
      × ((s'.load_use_stall_count ≡ s.load_use_stall_count)
          ⊎ (s'.load_use_stall_count ≡ add64 s.load_use_stall_count 1))
      × AtMostOnce s.i_cache s'.i_cache
      × AtMostOnce s.d_cache s'.d_cache
unfolding cycle
cycle_counts s = (
  refl,
  wb_stage_retired _ _ _ _ _,
  if_cases _ _ _,
  if_stage_once _ _ _ _ _ _ _ _ _ _ _ _ _ _ _,
  mem_stage_once _ _ _ _ _ _ _,
)
