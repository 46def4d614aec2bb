-- ===== src/Cycle/Stages.antt =====
-- The stages of `runCycles` (src/cycle.cpp) from WB back to ID: what each pipeline register holds
-- after the cycle, from what they held before it.
use cos375_project.Base.{ℕ, Bool, true, false, not, ◌&&◌, ◌||◌, ◌==◌, ◌!=◌, if◌then◌else◌, add64}
use cos375_project.Utilities.{StageStatus, normal, bubble, idle, speculative, squashed}
use cos375_project.Utilities.Op
use cos375_project.Cache.{Cache, cache_read, cache_write, access}
use cos375_project.Simulator.{Instruction, Simulator, exception_handler}
use cos375_project.Simulator.Stages.{sim_id, sim_ex, sim_mem, sim_wb}
use cos375_project.Simulator.MemAccess.{sim_addr_gen}
use cos375_project.Simulator.NextPc.{sim_next_pc_resolution}
use cos375_project.Cycle.{nop}
use cos375_project.Cycle.Forward.{forward_ex, forward_store}

abbrev pub set_status : StageStatus → Instruction → Instruction
set_status status inst = record inst { status = status }

pub record WbResult : Type 0 where
  pub new_wb : Instruction
  pub simulator : Simulator
  pub dyn_retired : ℕ
  pub wb_mem_exception : Bool
  pub next_pc : ℕ

-- What the WB stage makes of the result of `simWB`.
unfoldable pub retire : Instruction → ℕ → ℕ → Instruction × Simulator → WbResult
retire old_mem dyn_retired next_pc (written, sim) =
    let new_wb = if written.is_nop then set_status old_mem.status written else written in
    let faulty = not new_wb.is_legal || new_wb.mem_exception in
    record {
      new_wb = new_wb;
      simulator = sim;
      dyn_retired =
          if not new_wb.is_nop && new_wb.is_legal && not new_wb.mem_exception
          then add64 dyn_retired 1
          else dyn_retired;
      wb_mem_exception = faulty;
      next_pc = if faulty then new_wb.next_pc else next_pc;
    }

unfoldable pub wb_stage : Bool → Instruction → Simulator → ℕ → ℕ → WbResult
unfolding retire
wb_stage d_stall_active old_mem sim dyn_retired next_pc =
    if d_stall_active
    then record {
      new_wb = nop bubble;
      simulator = sim;
      dyn_retired = dyn_retired;
      wb_mem_exception = false;
      next_pc = next_pc;
    }
    else (if not old_mem.is_nop && old_mem.mem_exception
        then record {
          new_wb = nop squashed;
          simulator = sim;
          dyn_retired = dyn_retired;
          wb_mem_exception = true;
          next_pc = exception_handler;
        }
        else retire old_mem dyn_retired next_pc (sim_wb sim old_mem))

pub record MemResult : Type 0 where
  pub new_mem : Instruction
  pub simulator : Simulator
  pub d_cache : Cache
  pub d_stall_left : ℕ

abbrev pub is_squashed : StageStatus → Bool
is_squashed squashed = true
is_squashed normal = false
is_squashed bubble = false
is_squashed idle = false
is_squashed speculative = false

-- The D-cache access, which is left out where the access to the memory failed.
unfoldable pub time_access : Instruction → Cache → ℕ → Instruction × Simulator → MemResult
time_access input d_cache d_stall_left (done, sim) =
    let (d_cache', d_hit) =
      access d_cache input.mem_address (if input.writes_mem then cache_write else cache_read) in
    if not done.mem_exception && done.is_legal
    then record {
      new_mem = done;
      simulator = sim;
      d_cache = d_cache';
      d_stall_left = if d_hit then d_stall_left else d_cache'.config.miss_latency;
    }
    else record { new_mem = done; simulator = sim; d_cache = d_cache; d_stall_left = d_stall_left }

-- An instruction that moves from EX to MEM.
unfoldable pub enter_mem : Instruction → Instruction → Simulator → Cache → ℕ → MemResult
enter_mem old_ex old_wb sim d_cache d_stall_left =
    let input = forward_store old_ex old_wb in
    if input.reads_mem || input.writes_mem
    then (let addressed = sim_addr_gen input in
        time_access addressed d_cache d_stall_left (sim_mem sim addressed))
    else (let (done, sim') = sim_mem sim input in
        record { new_mem = done; simulator = sim'; d_cache = d_cache; d_stall_left = d_stall_left })

unfoldable pub mem_stage :
    Bool → Instruction → Instruction → Instruction → Simulator → Cache → ℕ → MemResult
mem_stage d_stall_active old_mem old_ex old_wb sim d_cache d_stall_left =
    let hold : MemResult = record {
      new_mem = old_mem;
      simulator = sim;
      d_cache = d_cache;
      d_stall_left = d_stall_left;
    } in
    if d_stall_active
    then hold
    else (if not old_ex.is_nop && not (is_squashed old_ex.status)
        then (let entered = enter_mem old_ex old_wb sim d_cache d_stall_left in
            record entered {
              new_mem =
                  if entered.new_mem.is_nop
                  then set_status old_ex.status entered.new_mem
                  else entered.new_mem;
            })
        else record hold { new_mem = nop old_ex.status })

unfoldable pub ex_stage :
    Bool → Bool → Instruction → Instruction → Instruction → Instruction → Instruction
ex_stage d_stall_active hazard_stall old_id old_ex old_mem old_wb =
    if d_stall_active
    then old_ex
    else (if not old_id.is_nop && not old_id.is_legal
        then nop squashed
        else (if hazard_stall
            then nop bubble
            else (let new_ex = sim_ex (forward_ex old_id old_ex old_mem old_wb) in
                if new_ex.is_nop then set_status old_id.status new_ex else new_ex)))

-- An exception raised by the instruction in ID, and a branch that is resolved there.
pub record Redirect : Type 0 where
  pub id_illegal_exception : Bool
  pub branch_taken : Bool
  pub next_pc : ℕ

unfoldable pub is_jump : Instruction → Bool
is_jump inst = inst.opcode == Op.branch || inst.opcode == Op.jalr || inst.opcode == Op.jal

-- `id_eval` is the instruction in ID with its operands forwarded.
unfoldable pub resolve : Bool → Bool → Bool → Instruction → Instruction → ℕ → Redirect
unfolding is_jump
resolve apply_deferred_squash will_advance wb_mem_exception old_id id_eval next_pc =
    let illegal = not apply_deferred_squash && not old_id.is_nop && not old_id.is_legal in
    let next = if illegal then old_id.next_pc else next_pc in
    if (will_advance && not illegal && not wb_mem_exception && not old_id.is_nop) && is_jump id_eval
    then (let resolved = sim_next_pc_resolution id_eval in
        record {
          id_illegal_exception = illegal;
          branch_taken = resolved.next_pc != add64 id_eval.pc 4;
          next_pc = resolved.next_pc;
        })
    else record { id_illegal_exception = illegal; branch_taken = false; next_pc = next }

pub record IdResult : Type 0 where
  pub new_id : Instruction
  pub simulator : Simulator
  pub redirect : Redirect
  pub i_stall_left : ℕ

-- `illegalDetected`
unfoldable pub illegal_detected : Instruction → Bool
illegal_detected new_id =
    not new_id.is_legal || (new_id.instruction == 0 && not new_id.is_nop && not new_id.is_halt)

-- What the ID stage makes of the result of `simID`.
unfoldable pub decoded : Redirect → ℕ → Instruction × Simulator → IdResult
unfolding illegal_detected
decoded redirect i_stall_left (new_id, sim) = record {
  new_id = new_id;
  simulator = sim;
  redirect =
      if illegal_detected new_id
      then record redirect { id_illegal_exception = true; next_pc = new_id.next_pc }
      else redirect;
  i_stall_left = i_stall_left;
}

abbrev pub idle_or_bubble : StageStatus → StageStatus
idle_or_bubble idle = idle
idle_or_bubble normal = bubble
idle_or_bubble bubble = bubble
idle_or_bubble speculative = bubble
idle_or_bubble squashed = bubble

unfoldable pub id_stage :
    Bool → Bool → Bool → Bool → Instruction → Instruction → Simulator → Redirect → ℕ → IdResult
unfolding decoded
id_stage frozen apply_deferred_squash wb_mem_exception i_stall_active old_id old_if sim redirect
      i_stall_left =
    let hold : IdResult = record {
      new_id = old_id;
      simulator = sim;
      redirect = redirect;
      i_stall_left = i_stall_left;
    } in
    if frozen
    then hold
    else (if apply_deferred_squash
        then record hold { new_id = nop squashed }
        else (if redirect.branch_taken && not redirect.id_illegal_exception && not wb_mem_exception
            then record hold { new_id = nop squashed; i_stall_left = 0 }
            else (if i_stall_active
                then record hold { new_id = nop bubble }
                else (if old_if.is_nop
                    then record hold { new_id = nop (idle_or_bubble old_if.status) }
                    else decoded redirect i_stall_left (sim_id sim old_if)))))
