-- ===== src/Cycle/Tests/Ends.antt =====
-- Sessions that end, and cycles that take a jump.
use cos375_project.Base.{◌+◌, ◌≡◌, inr, refl, Bool, true, false, Option, none, some, []}
use cos375_project.Utilities.{Status, error, halt, bubble, squashed}
use cos375_project.Simulator.{blank}
use cos375_project.Cycle.{CycleState, nop}
use cos375_project.Cycle.Step.{cycle, Session, run_cycles, run_till_halt}
use cos375_project.Cycle.Halts.{run_till_halt-halts}
use cos375_project.Cycle.Branches.{IsTaken, target_of, cycle_jumps}
use cos375_project.Cycle.Tests.Programs.{pipeline, reset, stop}

abbrev session : Session
session = record { state = reset stop; dumps = [] }

abbrev or_else : Option (Session × Status) → Session × Status
or_else none = (session, error)
or_else (some r) = r

abbrev last : Session × Status
last = or_else (run_till_halt 20 session)

unfoldable is_some : Option (Session × Status) → Bool
is_some none = false
is_some (some r) = true

is_some-or_else : (o : Option (Session × Status)) → is_some o ≡ true → o ≡ some (or_else o)
unfolding is_some
is_some-or_else none e = cc
is_some-or_else (some r) e = refl

session-is_some : is_some (run_till_halt 20 session) ≡ true
unfolding pipeline run_till_halt run_cycles is_some
session-is_some = refl

session_ends : run_till_halt 20 session ≡ some last
session_ends = is_some-or_else (run_till_halt 20 session) session-is_some

-- HALT in EX, behind an access that missed the D-cache.
abbrev halting_machine : CycleState
halting_machine = record (reset stop) {
  d_stall_left = 3;
  pipeline = record {
    if_inst = nop bubble;
    id_inst = nop bubble;
    ex_inst = record blank { instruction = 0xfeedfeed; is_legal = true; is_halt = true };
    mem_inst = record blank { instruction = 0x00002283; is_legal = true; reads_mem = true };
    wb_inst = nop bubble;
  };
}

run_till_halt-halts_example :
    (end : Session) × (run_till_halt (3 + 2) (record { state = halting_machine; dumps = [] })
      ≡ some (end, halt))
run_till_halt-halts_example =
    run_till_halt-halts (record { state = halting_machine; dumps = [] })
      (inr (record {
        is_halt = refl;
        is_nop = refl;
        status = refl;
        reads_mem = refl;
        writes_mem = refl;
        mem_exception = refl;
        older_is_legal = refl;
        older_mem_exception = refl;
      }))

-- `jal x0, 16` in ID.
abbrev jumping_machine : CycleState
jumping_machine = record (reset stop) {
  pipeline = record {
    if_inst = nop bubble;
    id_inst = record blank { pc = 8; instruction = 0x0100006f; opcode = 0x6f; is_legal = true };
    ex_inst = nop bubble;
    mem_inst = nop bubble;
    wb_inst = nop bubble;
  };
}

jumping-IsTaken : IsTaken jumping_machine
unfolding pipeline
jumping-IsTaken = record {
  ready = refl;
  no_hazard = refl;
  not_deferred = refl;
  some_inst = refl;
  legal = refl;
  jump = refl;
  older_is_legal = refl;
  older_mem_exception = refl;
  taken = refl;
}

cycle_jumps_example :
    ((cycle jumping_machine).0.pipeline.id_inst ≡ nop squashed)
    × ((cycle jumping_machine).0.pipeline.if_inst.pc ≡ target_of jumping_machine)
cycle_jumps_example = cycle_jumps jumping_machine jumping-IsTaken

jump_target : target_of jumping_machine ≡ 24
unfolding pipeline
jump_target = refl
