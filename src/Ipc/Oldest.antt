-- ===== src/Ipc/Oldest.antt =====
-- The search of kernel/ipc.c for the oldest message to a target.
use kolibriarm.Base.{
  ℕ, suc, ◌+◌, ◌-◌, ◌<◌, ◌≤◌, ◌≡◌, ◌≢◌, ◌⊎◌, refl, sym, subst, ap, ◌∙◌, ◌||◌, not, List, [], ◌∷◌,
  Option, none, some, ltb, ◌==◌, get_or, length, arith, Bool-cases, inl, inr,
}
use native.Mathlib.Decide.{ℕ_discrete}
use kolibriarm.Ipc.{Slot, Oldest, older, oldest_from, no_slot}
use kolibriarm.Ipc.Order.{first_for, better, first_for-insert}
use kolibriarm.Ipc.Pending.{pending, Distinct, pending-Ordered, pending-Avoids}

-- The loop over the slots finds the entry that is first for the target.
abbrev pub slot_of : Oldest → Option Slot
slot_of none = none
slot_of (some (i, s)) = some s

slot_of-older :
    (i : ℕ) (s : Slot) (o : Oldest) → slot_of (older i s o) ≡ better (slot_of o) (some s)
unfolding older
slot_of-older i s none = refl
slot_of-older i s (some (j, o)) = ground arith

better_assoc :
    (x : Option Slot) (y : Slot) (z : Option Slot)
    → better (better x (some y)) z ≡ better x (better (some y) z)
better_assoc none y z = refl
better_assoc (some x) y none = ground arith
better_assoc (some x) y (some z) = ground arith

better-none : (x : Option Slot) → better x none ≡ x
better-none none = refl
better-none (some x) = refl

pub slot_of-oldest_from :
    (t next : ℕ) (slots : List Slot) (i : ℕ) (o : Oldest)
    → Distinct next slots
    → slot_of (oldest_from t slots i o) ≡ better (slot_of o) (first_for t (pending slots))
unfolding oldest_from pending first_for
slot_of-oldest_from t next [] i o d = sym (better-none (slot_of o))
slot_of-oldest_from t next (s ∷ slots) i o d = elim (ℕ_discrete s.used 0) [
  | yes e ↦ ground (arith, slot_of-oldest_from t next slots (i + 1) o d.1)
  | no ne ↦ ground (
    arith,
    slot_of-oldest_from t next slots (i + 1) o d.1,
    slot_of-oldest_from t next slots (i + 1) (older i s o) d.1,
    slot_of-older i s o,
    better_assoc (slot_of o) s (first_for t (pending slots)),
    first_for-insert t 0 s (pending slots) (pending-Ordered next slots d.1)
        (pending-Avoids s.sequence slots (d.0 ne).2),
  )
]

-- The loop stays with what it had, or returns a used slot for the target and its index.
pub record Found (t : ℕ) (slots : List Slot) (i j : ℕ) (s : Slot) : Type 0 where
  pub from : i ≤ j
  pub in_range : j < i + length slots
  pub there : get_or slots (j - i) no_slot ≡ s
  pub in_use : s.used ≢ 0
  pub addressed : s.message.target_pid ≡ t

Found-tail :
    {t : ℕ} {slots : List Slot} {i j : ℕ} {s : Slot} (x : Slot)
    → Found t slots (i + 1) j s
    → Found t (x ∷ slots) i j s
Found-tail {t} {slots} {i} {j} {s} x f = record {
  from = omega (arith, f.from);
  in_range = omega (arith, f.in_range);
  there = ap (λ k. get_or (x ∷ slots) k no_slot) next ∙ f.there;
  in_use = f.in_use;
  addressed = f.addressed;
}
  where
    next : j - i ≡ suc (j - (i + 1))
    next = omega (arith, f.from)

Found-head :
    {t : ℕ} (slots : List Slot) (i j : ℕ) (x s : Slot)
    → x.used ≢ 0
    → x.message.target_pid ≡ t
    → i ≡ j
    → x ≡ s
    → Found t (x ∷ slots) i j s
Found-head {t} slots i j x s u at e same =
    subst (λ y. Found t (x ∷ slots) i j y) same
      (record {
        from = omega arith;
        in_range = omega arith;
        there = ap (λ k. get_or (x ∷ slots) k no_slot) zero_off;
        in_use = u;
        addressed = at;
      })
  where
    zero_off : j - i ≡ 0
    zero_off = omega arith

older-cases :
    (i : ℕ) (x : Slot) (o : Oldest) (j : ℕ) (s : Slot)
    → older i x o ≡ some (j, s)
    → (o ≡ some (j, s)) ⊎ ((i ≡ j) × (x ≡ s))
unfolding older
older-cases i x none j s e = inr (cc, cc)
older-cases i x (some (k, y)) j s e = elim (Bool-cases (ltb x.sequence y.sequence)) [
  | inl b ↦ inr (ground arith, ground arith)
  | inr b ↦ inl (ground arith)
]

pub oldest_from-Found :
    (t : ℕ) (slots : List Slot) (i : ℕ) (o : Oldest) (j : ℕ) (s : Slot)
    → oldest_from t slots i o ≡ some (j, s)
    → (o ≡ some (j, s)) ⊎ Found t slots i j s
unfolding oldest_from
oldest_from-Found t [] i o j s e = inl e
oldest_from-Found t (x ∷ slots) i o j s e =
    elim (Bool-cases (x.used == 0 || not (x.message.target_pid == t))) [
      | inl skip ↦ elim (oldest_from-Found t slots (i + 1) o j s (rw skip at e)) [
        | inl same ↦ inl same
        | inr f ↦ inr (Found-tail x f)
      ]
      | inr take ↦ elim (oldest_from-Found t slots (i + 1) (older i x o) j s (rw take at e)) [
        | inr f ↦ inr (Found-tail x f)
        | inl new ↦ elim (older-cases i x o j s new) [
          | inl same ↦ inl same
          | inr here ↦ inr (Found-head slots i j x s (ground arith) (ground arith) here.0 here.1)
        ]
      ]
    ]
