-- ===== src/Process/Table.antt =====
-- The process table of kernel/process.c. A `process_t *` is the index of its slot, `none` for a null
-- pointer; an index from 16 on stands for a process outside the table. `free_table` stands for
-- `vmm_free_table` and `destroy_windows` for `gui_destroy_windows_for_pid`, on a state of the
-- windows that the table's code does not read.
pub mod Inv
pub mod Init
pub mod Alloc
pub mod Life
pub mod Kill
pub mod Reclaim
mod Tests
use kolibriarm.Base.{
  ℕ, zero, suc, ◌+◌, ◌-◌, Bool, true, false, ◌&&◌, ◌||◌, not, List, [], ◌∷◌, Option, none, some,
  ltb, leb, ◌==◌, if◌then◌else◌, get_or, set, replicate, Status, ok, failed, first_index, u32,
}
use kolibriarm.Pmm.{Pmm}
use kolibriarm.Process.{
  Process, State, unused, ready, running, blocked, zombie, init, cleared_region, max_processes,
  max_user_regions, name_len,
}
use kolibriarm.Process.Resources.{free_resources}

pub record Table : Type 0 where
  pub processes : List Process
  pub current : Option ℕ
  pub count : ℕ

-- The enumerator's value.
abbrev pub code : State → ℕ
code unused = 0
code ready = 1
code running = 2
code blocked = 3
code zombie = 4

abbrev pub has_state : Process → State → Bool
has_state process state = code process.state == code state

-- A slot of zeros, as static storage starts.
abbrev pub zero_process : Process
zero_process = record {
  pid = 0;
  name_storage = replicate name_len 0;
  regs = replicate 31 0;
  sp = 0;
  pc = 0;
  pstate = 0;
  page_table = 0;
  state = unused;
  exit_code = 0;
  next_user_vaddr = 0;
  user_regions = replicate max_user_regions cleared_region;
  user_region_count = 0;
}

abbrev pub slot : Table → ℕ → Process
slot table i = get_or table.processes i zero_process

abbrev pub in_table : ℕ → Bool
in_table i = ltb i max_processes

abbrev pub points_at : Option ℕ → ℕ → Bool
points_at none i = false
points_at (some j) i = j == i

pub set_current : Table → Option ℕ → Table
set_current table process = record table { current = process }

-- `process_init(process, 0, 0)` and `state = PROCESS_UNUSED`.
abbrev pub cleared : Process → Process
cleared process = record (init process 0 none) { state = unused }

clear_slots : ℕ → ℕ → List Process → List Process
clear_slots zero i processes = processes
clear_slots (suc n) i processes =
    clear_slots n (i + 1) (set processes i (cleared (get_or processes i zero_process)))

pub table_init : Table → Table
unfolding clear_slots
table_init table = record {
  processes = clear_slots max_processes 0 table.processes;
  current = none;
  count = 0;
}

abbrev pub is_pid : ℕ → Process → Bool
is_pid pid process = not (has_state process unused) && process.pid == pid

pub find : Table → ℕ → Option ℕ
find table pid = if pid == 0 then none else first_index (is_pid pid) max_processes table.processes

abbrev pub is_unused : Process → Bool
is_unused process = has_state process unused

abbrev alloc_slot : Table → ℕ → Option (List ℕ) → Option ℕ → Option ℕ × Table
alloc_slot table pid name none = (none, table)
alloc_slot table pid name (some i) = (
  some i,
  record table {
    processes = set table.processes i (init (slot table i) pid name);
    count = u32 (table.count + 1);
  },
)

abbrev alloc_unless : Table → ℕ → Option (List ℕ) → Option ℕ → Option ℕ × Table
alloc_unless table pid name (some i) = (none, table)
alloc_unless table pid name none =
    alloc_slot table pid name (first_index is_unused max_processes table.processes)

pub alloc : Table → ℕ → Option (List ℕ) → Option ℕ × Table
alloc table pid name =
    if pid == 0 then (none, table) else alloc_unless table pid name (find table pid)

pub process_at : Table → ℕ → Option Process
process_at table index =
    if leb max_processes index || has_state (slot table index) unused
    then none
    else some (slot table index)

-- `*index`, or `none` for -1.
pub process_index : Option ℕ → Option ℕ
process_index none = none
process_index (some i) = if in_table i then some i else none

module _ (free_table : ℕ → Pmm → Pmm) where
  empty_slot : ℕ → Table → Pmm → Table × Pmm
  empty_slot i table pmm =
      let process = slot table i in
      let counted = in_table i && not (has_state process unused) in
      let freed = free_resources free_table process pmm in
      (
        record {
          processes = set table.processes i (cleared freed.0);
          current = if points_at table.current i then none else table.current;
          count = if counted && ltb 0 table.count then table.count - 1 else table.count;
        },
        freed.1,
      )

  pub release : ℕ → Table → Pmm → Table × Pmm
  release i table pmm =
      let process = slot table i in
      if has_state process unused && process.page_table == 0 && process.user_region_count == 0
      then (table, pmm)
      else empty_slot i table pmm

  abbrev wait_found : Table → Pmm → Option ℕ → Option ℕ × Table × Pmm
  wait_found table pmm none = (none, table, pmm)
  wait_found table pmm (some i) =
      let (left, freed) = release i table pmm in
      if points_at table.current i || not (has_state (slot table i) zombie)
      then (none, table, pmm)
      else (some (slot table i).exit_code, left, freed)

  -- `*exit_code`, or `none` for -1.
  pub wait_zombie : Table → Pmm → ℕ → Option ℕ × Table × Pmm
  wait_zombie table pmm pid = wait_found table pmm (find table pid)

  abbrev reclaim_slot : ℕ → Table → Pmm → Table × Pmm
  reclaim_slot i table pmm =
      if has_state (slot table i) zombie then release i table pmm else (table, pmm)

  unfoldable reclaim_from : ℕ → ℕ → Table → Pmm → Table × Pmm
  reclaim_from zero i table pmm = (table, pmm)
  reclaim_from (suc n) i table pmm =
      let step = reclaim_slot i table pmm in reclaim_from n (i + 1) step.0 step.1

  pub reclaim_zombies : Table → Pmm → Table × Pmm
  reclaim_zombies table pmm = reclaim_from max_processes 0 table pmm

module _ {W : Type 0} (destroy_windows : ℕ → W → W) where
  pub mark_exited : Process → ℕ → W → Process × W
  mark_exited process exit_code windows = if has_state process zombie then (process, windows) else (
    record process { exit_code = exit_code; state = zombie },
    destroy_windows process.pid windows,
  )

  abbrev kill_found : Table → ℕ → W → Option ℕ → Status × Table × W
  kill_found table exit_code windows none = (failed, table, windows)
  kill_found table exit_code windows (some i) =
      let exited = mark_exited (slot table i) exit_code windows in
      if points_at table.current i || has_state (slot table i) zombie
      then (failed, table, windows)
      else (ok, record table { processes = set table.processes i exited.0 }, exited.1)

  pub kill : Table → ℕ → ℕ → W → Status × Table × W
  kill table pid exit_code windows = kill_found table exit_code windows (find table pid)
