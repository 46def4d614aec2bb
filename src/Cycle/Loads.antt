-- ===== src/Cycle/Loads.antt =====
-- The hazard detection of `runCycles` (src/cycle.cpp): what stands in EX and MEM where it lets the
-- instruction in ID go on.
use cos375_project.Base.{
  ◌≡◌, ◌≢◌, sym, ◌∙◌, arith, Bool, Bool-cases, true, false, not, ◌&&◌, ◌||◌, ◌==◌, ◌⊎◌, inl, inr,
}
use cos375_project.Simulator.{Instruction}
use cos375_project.Cycle.Forward.{forwards}
use cos375_project.Cycle.Hazard.{
  is_branch_like, is_load, depends_on, load_use_hazard, waits_for_ex, waits_for_mem, branch_hazard,
  detect_hazards, stalls,
}

-- An instruction that loads into a register.
abbrev pub IsLoader : Instruction → Type 0
IsLoader inst =
    (inst.is_nop ≡ false) × (inst.reads_mem ≡ true) × (inst.writes_mem ≡ false) × (inst.rd ≢ 0)

module _ (id ex mem : Instruction) where
  branch_waits : stalls (branch_hazard id ex mem) ≡ (waits_for_ex id ex || waits_for_mem id mem)
  unfolding stalls branch_hazard
  branch_waits = ground arith

  detect_branch :
      is_branch_like id ≡ true
      → stalls (detect_hazards false id ex mem) ≡ (waits_for_ex id ex || waits_for_mem id mem)
  unfolding detect_hazards
  detect_branch h = rw h branch_waits

  detect_load :
      is_branch_like id ≡ false → stalls (detect_hazards false id ex mem) ≡ load_use_hazard id ex
  unfolding detect_hazards stalls
  detect_load h = rw h (ground arith)

load_free :
    (id ex : Instruction)
    → id.is_nop ≡ false
    → is_branch_like id ≡ false
    → load_use_hazard id ex ≡ false
    → IsLoader ex
    → ((id.reads_rs1 && id.rs1 == ex.rd) ≡ false)
      × ((id.reads_rs2 && id.rs2 == ex.rd && not id.writes_mem) ≡ false)
unfolding load_use_hazard is_load
load_free id ex nop_no b h (n, r, w, rd) = (ground arith, ground arith)

ex_free :
    (id ex : Instruction) → waits_for_ex id ex ≡ false → (forwards ex && depends_on id ex) ≡ false
unfolding waits_for_ex forwards
ex_free id ex h = ground arith

mem_free :
    (id mem : Instruction)
    → waits_for_mem id mem ≡ false
    → (forwards mem && is_load mem && depends_on id mem) ≡ false
unfolding waits_for_mem forwards
mem_free id mem h = ground arith

none_of : (a b : Bool) → (a || b) ≡ false → (a ≡ false) × (b ≡ false)
none_of a b h = (ground arith, ground arith)

-- Where hazard detection, outside of a D-cache stall, lets an instruction go on that is no NOP,
-- branch or JALR, it reads no register of a load in EX, but for the data of a store.
pub detect_hazards-load :
    (id ex mem : Instruction)
    → id.is_nop ≡ false
    → is_branch_like id ≡ false
    → stalls (detect_hazards false id ex mem) ≡ false
    → IsLoader ex
    → ((id.reads_rs1 && id.rs1 == ex.rd) ≡ false)
      × ((id.reads_rs2 && id.rs2 == ex.rd && not id.writes_mem) ≡ false)
detect_hazards-load id ex mem nop_no b h loader =
    load_free id ex nop_no b (sym (detect_load id ex mem b) ∙ h) loader

-- Where hazard detection, outside of a D-cache stall, lets a branch or JALR go on, it reads no
-- register that an instruction in EX will write, and no register that a load in MEM will write,
-- each whatever the other stage holds.
pub detect_hazards-branch :
    (id ex mem : Instruction)
    → is_branch_like id ≡ true
    → stalls (detect_hazards false id ex mem) ≡ false
    → ((forwards ex && depends_on id ex) ≡ false)
      × ((forwards mem && is_load mem && depends_on id mem) ≡ false)
detect_hazards-branch id ex mem b h =
    let (no_ex, no_mem) = none_of _ _ (sym (detect_branch id ex mem b) ∙ h) in
    (ex_free id ex no_ex, mem_free id mem no_mem)

-- What the instruction in ID takes from a load in EX where hazard detection lets it go on: nothing,
-- but for the data of a store.
module _ (id ex mem : Instruction) (some_inst : id.is_nop ≡ false)
    (no_store : (ex.reads_mem ≡ false) ⊎ (ex.writes_mem ≡ false))
    (h : stalls (detect_hazards false id ex mem) ≡ false) where
  branch_free :
      is_branch_like id ≡ true
      → ((forwards ex && id.reads_rs1 && id.rs1 == ex.rd) ≡ false)
        × ((forwards ex && id.reads_rs2 && id.rs2 == ex.rd) ≡ false)
  unfolding depends_on
  branch_free b =
      let (no_ex, no_mem) = detect_hazards-branch id ex mem b h in (ground arith, ground arith)

  use_free :
      is_branch_like id ≡ false
      → ((ex.reads_mem && forwards ex && id.reads_rs1 && id.rs1 == ex.rd) ≡ false)
        × ((ex.reads_mem && forwards ex && id.reads_rs2 && id.rs2 == ex.rd && not id.writes_mem)
            ≡ false)
  unfolding load_use_hazard is_load forwards
  use_free b =
      let free : load_use_hazard id ex ≡ false = sym (detect_load id ex mem b) ∙ h in
      (ground arith, ground arith)

  pub load_is_free :
      ((ex.reads_mem && forwards ex && id.reads_rs1 && id.rs1 == ex.rd) ≡ false)
      × ((ex.reads_mem && forwards ex && id.reads_rs2 && id.rs2 == ex.rd && not id.writes_mem)
          ≡ false)
  load_is_free = elim (Bool-cases (is_branch_like id)) [
    | inl b ↦ let (no_rs1, no_rs2) = branch_free b in (ground arith, ground arith)
    | inr b ↦ use_free b
  ]
