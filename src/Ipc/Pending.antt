-- ===== src/Ipc/Pending.antt =====
-- The used slots of kernel/ipc.c in the order of their sequence numbers: what a send adds, which
-- slot a receive finds, and what clearing it leaves.
use kolibriarm.Base.{
  ℕ, zero, suc, ◌<◌, ◌≤◌, ◌≡◌, ◌≢◌, refl, sym, subst, ap, ◌∙◌, List, [], ◌∷◌, ◌++◌, none, some,
  ==-ne, ◌==◌, if◌then◌else◌, get_or, set, length, arith,
}
use native.Mathlib.Decide.{ℕ_discrete}
use kolibriarm.Ipc.{Slot, find_free_slot, no_slot}
use kolibriarm.Ipc.Order.{
  insert, without, Ordered, Avoids, Below, insert-Ordered, insert-Avoids, insert-Below,
  length-insert, insert_last, insert-append, insert-without, without-insert_self,
}

unfoldable pub pending : List Slot → List Slot
pending [] = []
pending (s ∷ slots) = if s.used == 0 then pending slots else insert s (pending slots)

-- The numbers of the used slots differ, and lie above 0 and below `next`.
abbrev pub Lacks : ℕ → List Slot → Type 0
Lacks n [] = Unit
Lacks n (s ∷ slots) = (s.used ≢ 0 → s.sequence ≢ n) × Lacks n slots

abbrev pub Distinct : ℕ → List Slot → Type 0
Distinct next [] = Unit
Distinct next (s ∷ slots) =
    (s.used ≢ 0 → (0 < s.sequence) × (s.sequence < next) × Lacks s.sequence slots)
    × Distinct next slots

pub pending-Avoids : (n : ℕ) (slots : List Slot) → Lacks n slots → Avoids n (pending slots)
unfolding pending
pending-Avoids n [] l = tt
pending-Avoids n (s ∷ slots) l = elim (ℕ_discrete s.used 0) [
  | yes e ↦ rw e (pending-Avoids n slots l.1)
  | no ne ↦
      rw (==-ne s.used 0 ne)
        (insert-Avoids n s (pending slots) (l.0 ne) (pending-Avoids n slots l.1))
]

pub pending-Ordered :
    (next : ℕ) (slots : List Slot) → Distinct next slots → Ordered 0 (pending slots)
unfolding pending
pending-Ordered next [] d = tt
pending-Ordered next (s ∷ slots) d = elim (ℕ_discrete s.used 0) [
  | yes e ↦ rw e (pending-Ordered next slots d.1)
  | no ne ↦ rw (==-ne s.used 0 ne) (
      insert-Ordered 0 s (pending slots) (d.0 ne).0 (pending-Avoids s.sequence slots (d.0 ne).2)
        (pending-Ordered next slots d.1))
]

pub pending-Below :
    (next : ℕ) (slots : List Slot) → Distinct next slots → Below next (pending slots)
unfolding pending
pending-Below next [] d = tt
pending-Below next (s ∷ slots) d = elim (ℕ_discrete s.used 0) [
  | yes e ↦ rw e (pending-Below next slots d.1)
  | no ne ↦
      rw (==-ne s.used 0 ne)
        (insert-Below next s (pending slots) (d.0 ne).1 (pending-Below next slots d.1))
]

-- A send takes the first slot that is not used, and adds its message at the end.
pub pending-set :
    (next : ℕ) (slots : List Slot) (new : Slot) (i : ℕ)
    → new.used ≡ 1
    → new.sequence ≡ next
    → Distinct next slots
    → find_free_slot slots ≡ some i
    → pending (set slots i new) ≡ pending slots ++ (new ∷ [])
unfolding pending find_free_slot
pending-set next [] new i u n d e = cc
pending-set next (s ∷ slots) new zero u n d e = ground (
  arith,
  insert_last new (pending slots)
      (subst (λ k. Below k (pending slots)) (sym n) (pending-Below next slots d.1)),
)
pending-set next (s ∷ slots) new (suc i) u n d e =
    ground (arith, pending-set next slots new i u n d.1, insert-append s new (pending slots))

-- How many messages wait, and whether there is room for one more.
pub length-pending :
    (slots : List Slot)
    → (find_free_slot slots ≡ none → length (pending slots) ≡ length slots)
      × (length (pending slots) ≤ length slots)
unfolding pending find_free_slot
length-pending [] = (λ _. refl, omega arith)
length-pending (s ∷ slots) = (
  λ e. ground (arith, length-pending slots, length-insert s (pending slots)),
  ground (arith, length-pending slots, length-insert s (pending slots)),
)

pub room-pending :
    (slots : List Slot) (i : ℕ)
    → find_free_slot slots ≡ some i
    → (length (pending slots) < length slots) × (i < length slots)
unfolding pending find_free_slot
room-pending [] i e = cc
room-pending (s ∷ slots) zero e = ground (arith, length-pending slots)
room-pending (s ∷ slots) (suc i) e =
    ground (arith, room-pending slots i, length-insert s (pending slots))

Lacks-at :
    (n : ℕ) (slots : List Slot) (j : ℕ) (s : Slot)
    → Lacks n slots
    → j < length slots
    → get_or slots j no_slot ≡ s
    → s.used ≢ 0
    → s.sequence ≢ n
Lacks-at n [] j s l h g u = absurd (omega arith)
Lacks-at n (x ∷ slots) zero s l h g u = subst (λ y. y.used ≢ 0 → y.sequence ≢ n) g l.0 u
Lacks-at n (x ∷ slots) (suc j) s l h g u = Lacks-at n slots j s l.1 (omega arith) g u

-- Clearing a used slot removes its entry.
pub pending-clear :
    (next : ℕ) (slots : List Slot) (j : ℕ) (s cleared : Slot)
    → Distinct next slots
    → cleared.used ≡ 0
    → j < length slots
    → get_or slots j no_slot ≡ s
    → s.used ≢ 0
    → pending (set slots j cleared) ≡ without s.sequence (pending slots)
unfolding pending
pending-clear next [] j s cleared d c h g u = absurd (omega arith)
pending-clear next (x ∷ slots) zero s cleared d c h g u = elim (ℕ_discrete x.used 0) [
  | yes e ↦ absurd (u (ap (λ (y : Slot). y.used) (sym g) ∙ e))
  | no ne ↦ ground (
    arith,
    ap (λ (y : Slot). y.sequence) g,
    without-insert_self x (pending slots) (pending-Avoids x.sequence slots (d.0 ne).2),
  )
]
pending-clear next (x ∷ slots) (suc j) s cleared d c h g u = elim (ℕ_discrete x.used 0) [
  | yes e ↦ ground (arith, pending-clear next slots j s cleared d.1)
  | no ne ↦ ground (
    arith,
    pending-clear next slots j s cleared d.1,
    insert-without s.sequence 0 x (pending slots)
        (λ e. Lacks-at x.sequence slots j s (d.0 ne).2 (omega arith) g u (sym e))
        (pending-Ordered next slots d.1),
  )
]
