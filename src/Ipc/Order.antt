-- ===== src/Ipc/Order.antt =====
-- Lists of slots of kernel/ipc.c in the order of their sequence numbers.
use kolibriarm.Base.{
  ℕ, suc, ◌<◌, ◌≤◌, ◌≡◌, ◌≢◌, refl, ◌∙◌, List, [], ◌∷◌, ◌++◌, Option, none, some, ltb, ltb→lt, ◌==◌,
  if◌then◌else◌, length, arith, Bool-cases, inl, inr,
}
use kolibriarm.Ipc.{Slot}

unfoldable pub insert : Slot → List Slot → List Slot
insert s [] = s ∷ []
insert s (x ∷ xs) = if ltb s.sequence x.sequence then s ∷ x ∷ xs else x ∷ insert s xs

-- The first entry for a target, and the entries without the one of a sequence number.
unfoldable pub first_for : ℕ → List Slot → Option Slot
first_for t [] = none
first_for t (x ∷ xs) = if x.message.target_pid == t then some x else first_for t xs

unfoldable pub without : ℕ → List Slot → List Slot
without n [] = []
without n (x ∷ xs) = if x.sequence == n then without n xs else x ∷ without n xs

-- Sequence numbers that grow, all above `b`.
abbrev pub Ordered : ℕ → List Slot → Type 0
Ordered b [] = Unit
Ordered b (x ∷ xs) = (b < x.sequence) × Ordered x.sequence xs

abbrev pub Avoids : ℕ → List Slot → Type 0
Avoids n [] = Unit
Avoids n (x ∷ xs) = (x.sequence ≢ n) × Avoids n xs

abbrev pub Below : ℕ → List Slot → Type 0
Below n [] = Unit
Below n (x ∷ xs) = (x.sequence < n) × Below n xs

pub Ordered-weaken : (a b : ℕ) (xs : List Slot) → a ≤ b → Ordered b xs → Ordered a xs
Ordered-weaken a b [] h o = tt
Ordered-weaken a b (x ∷ xs) h o = (omega arith, o.1)

pub Ordered-Avoids : (n b : ℕ) (xs : List Slot) → n ≤ b → Ordered b xs → Avoids n xs
Ordered-Avoids n b [] h o = tt
Ordered-Avoids n b (x ∷ xs) h o =
    ((λ e. absurd (omega arith)), Ordered-Avoids n x.sequence xs (omega arith) o.1)

pub without-Avoids : (n : ℕ) (xs : List Slot) → Avoids n xs → without n xs ≡ xs
unfolding without
without-Avoids n [] a = refl
without-Avoids n (x ∷ xs) a = ground (arith, without-Avoids n xs a.1)

pub insert-Ordered :
    (b : ℕ) (s : Slot) (xs : List Slot)
    → b < s.sequence
    → Avoids s.sequence xs
    → Ordered b xs
    → Ordered b (insert s xs)
unfolding insert
insert-Ordered b s [] h a o = (h, tt)
insert-Ordered b s (x ∷ xs) h a o = ground (arith, a.0, insert-Ordered x.sequence s xs, a.1)

pub insert-Avoids :
    (n : ℕ) (s : Slot) (xs : List Slot) → s.sequence ≢ n → Avoids n xs → Avoids n (insert s xs)
unfolding insert
insert-Avoids n s [] h a = (h, tt)
insert-Avoids n s (x ∷ xs) h a = elim (Bool-cases (ltb s.sequence x.sequence)) [
  | inl e ↦ rw e (h, a)
  | inr e ↦ rw e (a.0, insert-Avoids n s xs h a.1)
]

pub insert-Below :
    (n : ℕ) (s : Slot) (xs : List Slot) → s.sequence < n → Below n xs → Below n (insert s xs)
unfolding insert
insert-Below n s [] h a = (h, tt)
insert-Below n s (x ∷ xs) h a = elim (Bool-cases (ltb s.sequence x.sequence)) [
  | inl e ↦ rw e (h, a)
  | inr e ↦ rw e (a.0, insert-Below n s xs h a.1)
]

pub length-insert : (s : Slot) (xs : List Slot) → length (insert s xs) ≡ suc (length xs)
unfolding insert
length-insert s [] = refl
length-insert s (x ∷ xs) = ground (arith, length-insert s xs)

-- An entry with the highest number goes to the end, before or after another insertion.
pub insert_last : (s : Slot) (xs : List Slot) → Below s.sequence xs → insert s xs ≡ xs ++ (s ∷ [])
unfolding insert
insert_last s [] h = refl
insert_last s (x ∷ xs) h = ground (arith, insert_last s xs h.1)

pub insert-append :
    (s n : Slot) (xs : List Slot)
    → s.sequence < n.sequence
    → insert s (xs ++ (n ∷ [])) ≡ insert s xs ++ (n ∷ [])
unfolding insert
insert-append s n [] h = ground arith
insert-append s n (x ∷ xs) h = ground (arith, insert-append s n xs h)

pub insert_first : (s : Slot) (xs : List Slot) → Ordered s.sequence xs → insert s xs ≡ s ∷ xs
unfolding insert
insert_first s [] o = refl
insert_first s (x ∷ xs) o = ground arith

pub without-Ordered : (n b : ℕ) (xs : List Slot) → Ordered b xs → Ordered b (without n xs)
unfolding without
without-Ordered n b [] o = tt
without-Ordered n b (x ∷ xs) o = elim (Bool-cases (x.sequence == n)) [
  | inl e ↦ rw e (without-Ordered n b xs (Ordered-weaken b x.sequence xs (omega arith) o.1))
  | inr e ↦ rw e (o.0, without-Ordered n x.sequence xs o.1)
]

-- Removing an entry and inserting another commute.
pub insert-without :
    (n b : ℕ) (s : Slot) (xs : List Slot)
    → s.sequence ≢ n
    → Ordered b xs
    → insert s (without n xs) ≡ without n (insert s xs)
unfolding insert without
insert-without n b s [] h o = ground arith
insert-without n b s (x ∷ xs) h o = elim (Bool-cases (ltb s.sequence x.sequence)) [
  | inl low ↦ rw low (
      insert_first s (without n (x ∷ xs))
        (without-Ordered n s.sequence (x ∷ xs) (ltb→lt s.sequence x.sequence low, o.1))
      ∙ ground arith)
  | inr high ↦ rw high (ground (arith, insert-without n x.sequence s xs h o.1))
]

pub without-insert_self :
    (s : Slot) (xs : List Slot) → Avoids s.sequence xs → without s.sequence (insert s xs) ≡ xs
unfolding insert without
without-insert_self s [] a = ground arith
without-insert_self s (x ∷ xs) a =
    ground (arith, a.0, without-Avoids s.sequence xs a.1, without-insert_self s xs a.1)

-- The choice between the best entry so far and a later one, as the loop makes it.
abbrev pub better : Option Slot → Option Slot → Option Slot
better none y = y
better (some x) none = some x
better (some x) (some y) = if ltb y.sequence x.sequence then some y else some x

pub first_for_above :
    (t b : ℕ) (xs : List Slot) (y : Slot) → Ordered b xs → first_for t xs ≡ some y → b < y.sequence
unfolding first_for
first_for_above t b [] y o e = cc
first_for_above t b (x ∷ xs) y o e = ground (arith, first_for_above t x.sequence xs y o.1)

pub better_above :
    (s : Slot) (r : Option Slot)
    → ((y : Slot) → r ≡ some y → s.sequence < y.sequence)
    → better (some s) r ≡ some s
better_above s none h = refl
better_above s (some y) h = ground (arith, h y refl)

pub first_for-insert :
    (t b : ℕ) (s : Slot) (xs : List Slot)
    → Ordered b xs
    → Avoids s.sequence xs
    → first_for t (insert s xs)
      ≡ (if s.message.target_pid == t then better (some s) (first_for t xs) else first_for t xs)
unfolding first_for insert
first_for-insert t b s [] o a = ground arith
first_for-insert t b s (x ∷ xs) o a = elim (Bool-cases (ltb s.sequence x.sequence)) [
  | inl low ↦ rw low (
      ground (
        arith,
        better_above s (first_for t (x ∷ xs)) (λ y e.
            first_for_above t s.sequence (x ∷ xs) y (ltb→lt s.sequence x.sequence low, o.1) e),
      ))
  | inr high ↦ rw high (ground (arith, a.0, first_for-insert t x.sequence s xs o.1 a.1))
]
