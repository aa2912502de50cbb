-- ===== src/Process/Table/Init.antt =====
-- `process_table_init` of kernel/process.c.
use mathlib.Core.Bool.{false≢true}
use native.Mathlib.Decide.{ℕ_discrete}
use kolibriarm.Base.{
  ℕ, zero, suc, ◌+◌, ◌<◌, ◌≤◌, ◌≡◌, refl, sym, ap, ◌∙◌, subst, true, List, [], ◌∷◌, none, get_or,
  set, length, length-set, get_or-set_self, get_or-set_ne, arith,
}
use kolibriarm.Process.{Process, max_processes}
use kolibriarm.Process.Table.{
  Table, slot, is_unused, zero_process, cleared, clear_slots, table_init,
}
use kolibriarm.Process.Table.Inv.{IsValid, count_used, usage-is_unused}

length-clear_slots : (n i : ℕ) (ps : List Process) → length (clear_slots n i ps) ≡ length ps
unfolding clear_slots
length-clear_slots zero i ps = refl
length-clear_slots (suc n) i ps = length-clear_slots n (i + 1) _ ∙ length-set ps i _

-- A slot that has been cleared is unused and stays so.
clear_slots_unused :
    (n i j : ℕ) (ps : List Process)
    → i + n ≤ length ps
    → j < i + n
    → (j < i → is_unused (get_or ps j zero_process) ≡ true)
    → is_unused (get_or (clear_slots n i ps) j zero_process) ≡ true
unfolding clear_slots
clear_slots_unused zero i j ps h k before = before (omega arith)
clear_slots_unused (suc n) i j ps h k before =
    clear_slots_unused n (i + 1) j (set ps i fresh) (omega (arith, length-set ps i fresh))
      (omega arith) more
  where
    fresh : Process
    fresh = cleared (get_or ps i zero_process)

    more : j < i + 1 → is_unused (get_or (set ps i fresh) j zero_process) ≡ true
    more l = elim (ℕ_discrete i j) [
      | yes same ↦
          subst (λ m. is_unused (get_or (set ps i fresh) m zero_process) ≡ true) same
            (ap is_unused (get_or-set_self ps i fresh zero_process (omega arith)))
      | no ne ↦ ap is_unused (get_or-set_ne ps i j fresh zero_process ne) ∙ before (omega arith)
    ]

count_used_idle :
    (ps : List Process)
    → ((j : ℕ) → j < length ps → is_unused (get_or ps j zero_process) ≡ true)
    → count_used ps ≡ 0
count_used_idle [] h = refl
count_used_idle (p ∷ ps) h = omega (
  arith,
  usage-is_unused p (h 0 (omega arith)),
  count_used_idle ps (λ j k. h (suc j) (omega arith)),
)

-- `process_table_init` makes any table of sixteen slots valid, without a current process and with every
-- slot unused.
pub table_init-IsValid :
    (t : Table)
    → length t.processes ≡ max_processes
    → IsValid (table_init t)
      × ((table_init t).current ≡ none)
      × ((i : ℕ) → i < max_processes → is_unused (slot (table_init t) i) ≡ true)
unfolding table_init
table_init-IsValid t e = (valid, refl, idle)
  where
    new : List Process
    new = clear_slots max_processes 0 t.processes

    size : length new ≡ max_processes
    size = length-clear_slots max_processes 0 t.processes ∙ e

    idle : (i : ℕ) → i < max_processes → is_unused (get_or new i zero_process) ≡ true
    idle i h =
        clear_slots_unused max_processes 0 i t.processes (omega (arith, e)) (omega arith)
          (λ l. absurd (omega arith))

    valid : IsValid (table_init t)
    valid = record {
      slots = size;
      counted = sym (count_used_idle new (λ j k. idle j (omega (arith, size))));
      named = λ i h u. absurd (false≢true (sym u ∙ idle i h));
      distinct = λ i j h k u w e'. absurd (false≢true (sym u ∙ idle i h));
      present = λ i e'. absurd (ground arith);
    }
