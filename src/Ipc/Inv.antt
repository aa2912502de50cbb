-- ===== src/Ipc/Inv.antt =====
-- The invariant of the slots of kernel/ipc.c, and the writes of a slot that keep it.
use kolibriarm.Base.{
  ℕ, zero, suc, ◌+◌, ◌<◌, ◌≡◌, ◌≢◌, refl, sym, ap, subst, ◌∙◌, List, [], ◌∷◌, get_or, set, length,
  arith,
}
use kolibriarm.Ipc.{Slot, Ipc, clear_all, no_slot, init, max_messages}
use kolibriarm.Ipc.Pending.{pending, Distinct, Lacks}
use kolibriarm.Ipc.Payload.{IsPadded, AllPadded, clear_slot-IsPadded}

pub record IsValid (s : Ipc) : Type 0 where
  pub eight : length s.slots ≡ max_messages
  pub distinct : Distinct s.next_sequence s.slots
  pub padded_slots : AllPadded s.slots
  pub started : 0 < s.next_sequence

Lacks-set :
    (n : ℕ) (slots : List Slot) (i : ℕ) (new : Slot)
    → (new.used ≢ 0 → new.sequence ≢ n)
    → Lacks n slots
    → Lacks n (set slots i new)
Lacks-set n [] i new h l = tt
Lacks-set n (s ∷ slots) zero new h l = (h, l.1)
Lacks-set n (s ∷ slots) (suc i) new h l = (l.0, Lacks-set n slots i new h l.1)

Lacks-next : (next : ℕ) (slots : List Slot) → Distinct next slots → Lacks next slots
Lacks-next next [] d = tt
Lacks-next next (s ∷ slots) d = ((λ u e. absurd (omega (arith, d.0 u))), Lacks-next next slots d.1)

Distinct-weaken : (next : ℕ) (slots : List Slot) → Distinct next slots → Distinct (next + 1) slots
Distinct-weaken next [] d = tt
Distinct-weaken next (s ∷ slots) d =
    ((λ u. ((d.0 u).0, omega (arith, d.0 u), (d.0 u).2)), Distinct-weaken next slots d.1)

-- A slot that is filled under the next number, and a slot that is cleared.
pub Distinct-fill :
    (next : ℕ) (slots : List Slot) (i : ℕ) (new : Slot)
    → new.sequence ≡ next
    → 0 < next
    → Distinct next slots
    → Distinct (next + 1) (set slots i new)
Distinct-fill next [] i new e p d = tt
Distinct-fill next (s ∷ slots) zero new e p d = (
  (λ u. (omega arith, omega arith, subst (λ k. Lacks k slots) (sym e) (Lacks-next next slots d.1))),
  Distinct-weaken next slots d.1,
)
Distinct-fill next (s ∷ slots) (suc i) new e p d = (
  (λ u. (
    (d.0 u).0,
    omega (arith, d.0 u),
    Lacks-set s.sequence slots i new (λ _ c. absurd (omega (arith, d.0 u))) (d.0 u).2,
  )),
  Distinct-fill next slots i new e p d.1,
)

pub Distinct-clear :
    (next : ℕ) (slots : List Slot) (i : ℕ) (new : Slot)
    → new.used ≡ 0
    → Distinct next slots
    → Distinct next (set slots i new)
Distinct-clear next [] i new e d = tt
Distinct-clear next (s ∷ slots) zero new e d = ((λ u. absurd (u e)), d.1)
Distinct-clear next (s ∷ slots) (suc i) new e d = (
  (λ u. ((d.0 u).0, (d.0 u).1, Lacks-set s.sequence slots i new (λ u'. absurd (u' e)) (d.0 u).2)),
  Distinct-clear next slots i new e d.1,
)

pub AllPadded-set :
    (slots : List Slot) (i : ℕ) (new : Slot)
    → IsPadded new.message
    → AllPadded slots
    → AllPadded (set slots i new)
AllPadded-set [] i new p a = tt
AllPadded-set (s ∷ slots) zero new p a = (p, a.1)
AllPadded-set (s ∷ slots) (suc i) new p a = (a.0, AllPadded-set slots i new p a.1)

pub AllPadded-at :
    (slots : List Slot) (i : ℕ) (s : Slot)
    → i < length slots
    → get_or slots i no_slot ≡ s
    → AllPadded slots
    → IsPadded s.message
AllPadded-at [] i s h e a = absurd (omega arith)
AllPadded-at (x ∷ slots) zero s h e a = subst (λ (y : Slot). IsPadded y.message) e a.0
AllPadded-at (x ∷ slots) (suc i) s h e a = AllPadded-at slots i s (omega arith) e a.1

-- `ipc_init`, on eight slots of sixteen bytes each.
abbrev pub AllSixteen : List Slot → Type 0
AllSixteen [] = Unit
AllSixteen (s ∷ slots) = (length s.message.bytes ≡ 16) × AllSixteen slots

cleared_lem :
    (slots : List Slot)
    → AllSixteen slots
    → AllPadded (clear_all slots)
      × Distinct 1 (clear_all slots)
      × (length (clear_all slots) ≡ length slots)
      × (pending (clear_all slots) ≡ [])
unfolding clear_all pending
cleared_lem [] a = (tt, tt, refl, refl)
cleared_lem (s ∷ slots) a =
    let (p, d, l, e) = cleared_lem slots a.1 in
    ((clear_slot-IsPadded s a.0, p), ((λ u. absurd (u refl)), d), ap suc l, e)

-- After `ipc_init` the invariant holds and no message waits.
pub init-IsValid :
    (s : Ipc)
    → length s.slots ≡ max_messages
    → AllSixteen s.slots
    → IsValid (init s) × (pending (init s).slots ≡ [])
unfolding init
init-IsValid s n a =
    let (p, d, l, e) = cleared_lem s.slots a in
    (record { eight = l ∙ n; distinct = d; padded_slots = p; started = omega arith }, e)
