-- ===== src/Process/Table/Tests.antt =====
-- The process table of kernel/process.c after a start with two processes.
use kolibriarm.Base.{
  ℕ, ◌+◌, ◌<◌, ◌≡◌, refl, List, [], ◌∷◌, none, some, ok, replicate, first_index, false, min, get_or,
  fill,
}
use kolibriarm.Pmm.{Pmm}
use kolibriarm.Process.{
  Process, max_user_regions, init, copy_name, copy_chars, clear_regions, cleared_region,
}
use kolibriarm.Process.Resources.{free_resources, owns_pages}
use kolibriarm.Process.Resources.Twice.{free_resources_twice}
use kolibriarm.Process.Table.{
  Table, zero_process, table_init, clear_slots, find, alloc, kill, mark_exited, wait_zombie,
}
use kolibriarm.Process.Table.Inv.{IsValid}
use kolibriarm.Process.Table.Init.{table_init-IsValid}
use kolibriarm.Process.Table.Alloc.{AllocOutcome, alloc_lem, alloc-IsValid}
use kolibriarm.Process.Table.Kill.{KillOutcome, kill_lem, wait_zombie-kill}

abbrev static_table : Table
static_table = record { processes = replicate 16 zero_process; current = some 3; count = 9 }

abbrev pub started : Table
started = table_init static_table

pub started-IsValid : IsValid started
started-IsValid = (table_init-IsValid static_table refl).0

-- Processes 41 and 42, the latter with a name.
abbrev pub two : Table
two = (alloc (alloc started 41 none).1 42 (some (115 ∷ 104 ∷ []))).1

pub two-IsValid : IsValid two
two-IsValid = alloc-IsValid _ 42 _ (alloc-IsValid started 41 none started-IsValid)

abbrev pmm : Pmm
pmm = record { bitmap = replicate 4096 0; mem_base = 0x40000000; total_pages = 8; free_pages = 8 }

-- `vmm_free_table` for a table of one page, and windows as the list of the pids that lost theirs.
abbrev free_root : ℕ → Pmm → Pmm
free_root table s = record s { free_pages = s.free_pages + 1 }

abbrev log_pid : ℕ → List ℕ → List ℕ
log_pid pid pids = pid ∷ pids

alloc_lem_example : AllocOutcome two 43 none (alloc two 43 none)
alloc_lem_example = alloc_lem two 43 none two-IsValid

kill_lem_example : KillOutcome log_pid two 42 9 [] (kill log_pid two 42 9 [])
kill_lem_example = kill_lem log_pid two 42 9 [] two-IsValid

killed_42 : (kill log_pid two 42 9 []).0 ≡ ok
unfolding kill find table_init clear_slots alloc init copy_name copy_chars clear_regions mark_exited
    fill first_index
killed_42 = refl

wait_zombie-kill_example : (wait_zombie free_root (kill log_pid two 42 9 []).1 pmm 42).0 ≡ some 9
wait_zombie-kill_example = wait_zombie-kill free_root log_pid two 42 9 [] pmm two-IsValid killed_42

-- A process with one region of two pages of its own.
abbrev owner : Process
owner = record zero_process {
  page_table = 0x40005000;
  user_regions =
      record { start = 0x100000000; end = 0x100002000; paddr = 0x40003000; flags = 1 }
      ∷ replicate 7 cleared_region;
  user_region_count = 1;
}

free_resources_twice_example :
    ((j : ℕ)
      → j < min owner.user_region_count max_user_regions
      → owns_pages (get_or (free_resources free_root owner pmm).0.user_regions j cleared_region)
        ≡ false)
    × ((free_resources free_root owner pmm).0.page_table ≡ 0)
    × (free_resources free_root
          (free_resources free_root owner pmm).0
          (free_resources free_root owner pmm).1
        ≡ free_resources free_root owner pmm)
free_resources_twice_example = free_resources_twice free_root owner pmm refl
