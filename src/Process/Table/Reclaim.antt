-- ===== src/Process/Table/Reclaim.antt =====
-- `process_reclaim_zombies` of kernel/process.c.
use kolibriarm.Base.{ℕ, ◌<◌, ◌≤◌, ◌≡◌, ◌⊎◌, true, false}
use kolibriarm.Pmm.{Pmm}
use kolibriarm.Process.{zombie, max_processes}
use kolibriarm.Process.Table.{Table, slot, has_state, is_unused}
use kolibriarm.Process.Table.Inv.{IsValid}

-- The zombies among the slots from i on are gone, every other slot is as it was.
pub record Reclaimed (t : Table) (i : ℕ) (u : Table) : Type 0 where
  pub gone :
      (j : ℕ)
      → i ≤ j
      → j < max_processes
      → has_state (slot t j) zombie ≡ true
      → is_unused (slot u j) ≡ true
  pub kept : (j : ℕ) → (j < i) ⊎ (has_state (slot t j) zombie ≡ false) → slot u j ≡ slot t j
  pub valid : IsValid u
