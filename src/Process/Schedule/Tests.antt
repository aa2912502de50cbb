-- ===== src/Process/Schedule/Tests.antt =====
-- Scheduling of kernel/process.c with two ready processes.
use mathlib.Core.Bool.{false≢true}
use kolibriarm.Base.{
  ℕ, ◌<◌, ◌≡◌, refl, sym, ◌∙◌, none, some, replicate, arith, true, false, inl, inr,
}
use kolibriarm.Process.{Process, max_processes, exit, preempt, running, Frame}
use kolibriarm.Process.Table.{Table, zero_process, slot, alloc, table_init, has_state, is_unused}
use kolibriarm.Process.Table.Inv.{IsValid}
use kolibriarm.Process.Table.Init.{table_init-IsValid}
use kolibriarm.Process.Table.Alloc.{alloc-IsValid, alloc-current}
use kolibriarm.Process.Schedule.{next_runnable, dispatch_next}
use kolibriarm.Process.Schedule.Next.{NextOutcome, next_runnable_lem}
use kolibriarm.Process.Schedule.Dispatch.{
  DispatchOutcome, dispatch_next_lem, OneRunning, dispatch_next-OneRunning, alloc-OneRunning,
  dispatch_next-IsValid,
}

abbrev static_table : Table
static_table = record { processes = replicate 16 zero_process; current = none; count = 0 }

abbrev two : Table
two = (alloc (alloc (table_init static_table) 41 none).1 42 none).1

two-IsValid : IsValid two
two-IsValid =
    alloc-IsValid _ 42 none (alloc-IsValid _ 41 none (table_init-IsValid static_table refl).0)

unused_halted : (p : Process) → is_unused p ≡ true → has_state p running ≡ false
unused_halted p e = ground arith

two-OneRunning : OneRunning two
two-OneRunning = alloc-OneRunning _ 42 none (alloc-IsValid _ 41 none started.0) (
    alloc-OneRunning (table_init static_table) 41 none started.0 (λ i h run.
      absurd (
        false≢true (sym (unused_halted (slot (table_init static_table) i) (started.2 i h)) ∙ run))))
  where
    started :
        IsValid (table_init static_table)
        × ((table_init static_table).current ≡ none)
        × ((i : ℕ) → i < max_processes → is_unused (slot (table_init static_table) i) ≡ true)
    started = table_init-IsValid static_table refl

abbrev frame : Frame
frame = record { x = replicate 31 0; elr = 0; spsr = 0; sp_el0 = 0 }

next_runnable_lem_example : NextOutcome two (some 0) (next_runnable two (some 0))
next_runnable_lem_example = next_runnable_lem two (some 0) (λ i e. ground arith)

dispatch_next_lem_example :
    DispatchOutcome two (some 0) frame preempt (dispatch_next two (some 0) frame preempt)
dispatch_next_lem_example =
    dispatch_next_lem two (some 0) frame preempt two-IsValid (λ i e. ground arith)

two-current : two.current ≡ none
two-current =
    alloc-current _ 42 none (alloc-IsValid _ 41 none (table_init-IsValid static_table refl).0)
    ∙ alloc-current _ 41 none (table_init-IsValid static_table refl).0
    ∙ (table_init-IsValid static_table refl).1

-- Process 41 runs.
abbrev busy : Table
busy = (dispatch_next two two.current frame exit).1

busy-OneRunning : OneRunning busy
busy-OneRunning =
    dispatch_next-OneRunning two frame exit two-IsValid two-OneRunning
      (inr (λ i e. absurd (ground (arith, two-current))))

dispatch_next-OneRunning_example : OneRunning (dispatch_next busy busy.current frame preempt).1
dispatch_next-OneRunning_example =
    dispatch_next-OneRunning busy frame preempt (dispatch_next-IsValid two frame exit two-IsValid)
      busy-OneRunning (inl refl)
