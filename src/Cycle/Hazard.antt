-- ===== src/Cycle/Hazard.antt =====
-- The hazard detection of `runCycles` (src/cycle.cpp): load-use and branch-data hazards.
use cos375_project.Base.{Bool, true, false, not, ◌&&◌, ◌||◌, ◌==◌, ◌!=◌, if◌then◌else◌}
use cos375_project.Utilities.{StageStatus, normal, bubble, idle, speculative, squashed}
use cos375_project.Utilities.Op
use cos375_project.Simulator.{Instruction}

pub record Hazard : Type 0 where
  pub load_use_stall : Bool
  pub load_use_event : Bool
  pub branch_data_stall : Bool

unfoldable pub is_branch_like : Instruction → Bool
is_branch_like id = not id.is_nop && (id.opcode == Op.branch || id.opcode == Op.jalr)

-- An instruction that loads and does not store.
unfoldable pub is_load : Instruction → Bool
is_load inst = inst.reads_mem && not inst.writes_mem

-- `depRs1 || depRs2`: the instruction in ID reads the register.
unfoldable pub depends_on : Instruction → Instruction → Bool
depends_on id older = (id.reads_rs1 && id.rs1 == older.rd) || (id.reads_rs2 && id.rs2 == older.rd)

-- The generic load-use hazard; the data of a store are forwarded later.
unfoldable pub load_use_hazard : Instruction → Instruction → Bool
unfolding is_branch_like is_load
load_use_hazard id ex =
    not ex.is_nop
    && is_load ex
    && ex.rd != 0
    && not id.is_nop
    && not (is_branch_like id)
    && ((id.reads_rs1 && id.rs1 == ex.rd) || (id.reads_rs2 && id.rs2 == ex.rd && not id.writes_mem))

-- A branch in ID waits for the instruction in EX.
unfoldable pub waits_for_ex : Instruction → Instruction → Bool
unfolding depends_on
waits_for_ex id ex = not ex.is_nop && ex.rd != 0 && ex.writes_rd && depends_on id ex

-- A branch in ID waits for the load in MEM.
unfoldable pub waits_for_mem : Instruction → Instruction → Bool
unfolding is_load depends_on
waits_for_mem id mem =
    not mem.is_nop && mem.rd != 0 && mem.writes_rd && is_load mem && depends_on id mem

abbrev pub is_bubble : StageStatus → Bool
is_bubble bubble = true
is_bubble normal = false
is_bubble idle = false
is_bubble speculative = false
is_bubble squashed = false

-- The branch-data hazards: what an arithmetic result and a load in front of the branch cost.
unfoldable pub branch_hazard : Instruction → Instruction → Instruction → Hazard
branch_hazard id ex mem =
    let second = ex.is_nop && is_bubble ex.status in
    if waits_for_ex id ex
    then record { load_use_stall = false; load_use_event = is_load ex; branch_data_stall = true }
    else (if waits_for_mem id mem
        then record {
          load_use_stall = false;
          load_use_event = not second;
          branch_data_stall = true;
        }
        else record { load_use_stall = false; load_use_event = false; branch_data_stall = false })

unfoldable pub detect_hazards : Bool → Instruction → Instruction → Instruction → Hazard
detect_hazards d_stall_active id ex mem =
    if d_stall_active
    then record { load_use_stall = false; load_use_event = false; branch_data_stall = false }
    else (if is_branch_like id then branch_hazard id ex mem else record {
      load_use_stall = load_use_hazard id ex;
      load_use_event = load_use_hazard id ex;
      branch_data_stall = false;
    })

-- `hazardStall`
unfoldable pub stalls : Hazard → Bool
stalls h = h.load_use_stall || h.branch_data_stall
