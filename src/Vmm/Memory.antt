-- ===== src/Vmm/Memory.antt =====
-- The words that `zero_table` of kernel/mm/vmm.c writes.
use native.Mathlib.Decide.{ℕ_discrete}
use kolibriarm.Base.{ℕ, zero, suc, ◌+◌, ◌<◌, ◌≤◌, ◌≡◌, ◌≢◌, refl, ◌∙◌, arith}
use kolibriarm.Vmm.{Memory, store, entry_of, zero_from, zero_table, table_entries}

zero_from_out :
    (n i t a : ℕ) (m : Memory)
    → ((j : ℕ) → i ≤ j → j < i + n → a ≢ entry_of t j)
    → zero_from n i t m a ≡ m a
unfolding zero_from
zero_from_out zero i t a m h = refl
zero_from_out (suc n) i t a m h =
    zero_from_out n (i + 1) t a (store m (entry_of t i) 0)
      (λ j k l. h j (omega arith) (omega arith))
    ∙ ground (arith, h i (omega arith) (omega arith))

zero_from_in : (n i t j : ℕ) (m : Memory) → i ≤ j → j < i + n → zero_from n i t m (entry_of t j) ≡ 0
unfolding zero_from
zero_from_in zero i t j m h k = absurd (omega arith)
zero_from_in (suc n) i t j m h k = elim (ℕ_discrete i j) [
  | no ne ↦ zero_from_in n (i + 1) t j (store m (entry_of t i) 0) (omega arith) (omega arith)
  | yes same ↦
      zero_from_out n (i + 1) t (entry_of t j) (store m (entry_of t i) 0) (λ q l r e. omega arith)
      ∙ ground arith
]

pub zero_table_out :
    (t a : ℕ) (m : Memory)
    → ((j : ℕ) → j < table_entries → a ≢ entry_of t j)
    → zero_table t m a ≡ m a
zero_table_out t a m h = zero_from_out table_entries 0 t a m (λ j k l. h j (omega arith))

pub zero_table_in : (t j : ℕ) (m : Memory) → j < table_entries → zero_table t m (entry_of t j) ≡ 0
zero_table_in t j m h = zero_from_in table_entries 0 t j m (omega arith) (omega arith)
