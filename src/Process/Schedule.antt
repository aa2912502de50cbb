-- ===== src/Process/Schedule.antt =====
-- The scheduling of kernel/process.c: the choice of the next process and the switch to it.
-- `mmu_set_ttbr0` writes a system register, which the model leaves out.
pub mod Next
pub mod Dispatch
mod Tests
use kolibriarm.Base.{
  ℕ, zero, suc, ◌+◌, ◌-◌, ◌%◌, Bool, true, false, ◌&&◌, ◌||◌, not, List, [], ◌∷◌, Option, none,
  some, if◌then◌else◌, get_or, set,
}
use kolibriarm.Process.{
  Process, Policy, exit, preempt, State, ready, running, Frame, load_context, max_processes,
}
use kolibriarm.Process.Table.{Table, slot, has_state, in_table, set_current, zero_process}

-- The loop over `offset`, with `n` rounds left.
unfoldable next_from : ℕ → ℕ → ℕ → Table → Option ℕ
next_from zero offset start table = none
next_from (suc n) offset start table =
    let rest = next_from n (offset + 1) start table in
    let index = (start + offset) % max_processes in
    if has_state (slot table index) ready then some index else rest

pub next_runnable : Table → Option ℕ → Option ℕ
next_runnable table none = next_from max_processes 0 0 table
next_runnable table (some after) =
    if in_table after
    then next_from (max_processes - 1) 0 (after + 1) table
    else next_from max_processes 0 0 table

-- `current->state = PROCESS_READY` for a running process that is preempted.
abbrev pub yield_current : Table → Option ℕ → Policy → Table
yield_current table none policy = table
yield_current table (some i) exit = table
yield_current table (some i) preempt =
    if has_state (slot table i) running
    then record table {
      processes = set table.processes i (record (slot table i) { state = ready });
    }
    else table

abbrev pub switch_to : Table → ℕ → Frame → Table × Frame
switch_to table i frame = (
  record table {
    processes = set table.processes i (record (slot table i) { state = running });
    current = some i;
  },
  load_context (record (slot table i) { state = running }) frame,
)

abbrev dispatch_found : Table → Option ℕ → Frame → Policy → Option ℕ → Bool × Table × Frame
dispatch_found table current frame policy none = (false, table, frame)
dispatch_found table current frame policy (some next) =
    let (switched, loaded) = switch_to (yield_current table current policy) next frame in
    (true, switched, loaded)

pub dispatch_next : Table → Option ℕ → Frame → Policy → Bool × Table × Frame
dispatch_next table none frame preempt = (false, table, frame)
dispatch_next table none frame exit =
    dispatch_found table none frame exit (next_runnable table none)
dispatch_next table (some i) frame policy =
    dispatch_found table (some i) frame policy (next_runnable table (some i))
