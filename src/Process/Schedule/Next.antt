-- ===== src/Process/Schedule/Next.antt =====
-- `process_next_runnable` of kernel/process.c.
use mathlib.Core.Bool.{false≢true}
use kolibriarm.Base.{
  ℕ, zero, suc, ◌+◌, ◌-◌, ◌%◌, ◌<◌, ◌≤◌, ◌≡◌, ◌≢◌, refl, sym, ◌∙◌, subst, Bool, true, false, Option,
  none, some, ltb, lt→ltb, if◌then◌else◌, arith, inl, inr, Bool-cases,
}
use kolibriarm.Process.{ready, max_processes}
use kolibriarm.Process.Table.{Table, slot, has_state}
use kolibriarm.Process.Schedule.{next_from, next_runnable}

-- The rounds from `offset` on, up to the first that meets a ready process.
data Scan (start offset n : ℕ) (t : Table) : Option ℕ → Type 0 where
  hit :
      (o : ℕ)
      → offset ≤ o
      → o < offset + n
      → has_state (slot t ((start + o) % max_processes)) ready ≡ true
      → ((j : ℕ)
          → offset ≤ j
          → j < o
          → has_state (slot t ((start + j) % max_processes)) ready ≡ false)
      → Scan start offset n t (some ((start + o) % max_processes))
  miss :
      ((j : ℕ)
        → offset ≤ j
        → j < offset + n
        → has_state (slot t ((start + j) % max_processes)) ready ≡ false)
      → Scan start offset n t none

next_from-Scan :
    (n offset start : ℕ) (t : Table) → Scan start offset n t (next_from n offset start t)
unfolding next_from
next_from-Scan zero offset start t = miss (λ j h k. absurd (omega arith))
next_from-Scan (suc n) offset start t =
    go (next_from n (offset + 1) start t) (next_from-Scan n (offset + 1) start t)
  where
    here : Bool
    here = has_state (slot t ((start + offset) % max_processes)) ready

    before :
        (o : ℕ)
        → here ≡ false
        → ((j : ℕ)
            → offset + 1 ≤ j
            → j < o
            → has_state (slot t ((start + j) % max_processes)) ready ≡ false)
        → (j : ℕ) → offset ≤ j
        → j < o
        → has_state (slot t ((start + j) % max_processes)) ready ≡ false
    before o cold rest j h k = elim (Bool-cases (ltb offset j)) [
      | inl more ↦ rest j (ground arith) k
      | inr same ↦
          let at : offset ≡ j = ground arith in
          subst (λ x. has_state (slot t ((start + x) % max_processes)) ready ≡ false) at cold
    ]

    go :
        (r : Option ℕ)
        → Scan start (offset + 1) n t r
        → Scan start offset (suc n) t (if here then some ((start + offset) % max_processes) else r)
    go r s = elim (Bool-cases here) [
      | inl hot ↦
          rw hot (hit offset (omega arith) (omega arith) hot (λ j h k. absurd (omega arith)))
      | inr cold ↦ rw cold (later r s cold)
    ]
      where
        later :
            (r : Option ℕ)
            → Scan start (offset + 1) n t r
            → here ≡ false
            → Scan start offset (suc n) t r
        later r (hit o h k hot rest) cold =
            hit o (omega arith) (omega arith) hot (before o cold rest)
        later r (miss rest) cold =
            miss (λ j h k. before (offset + suc n) cold (λ i x y. rest i x (omega arith)) j h k)

-- How many slots the search visits before slot i.
abbrev pub rank : Option ℕ → ℕ → ℕ
rank none i = i
rank (some after) i = (i + 15 - after) % max_processes

-- The search passes over the slot it starts after.
abbrev pub Other : Option ℕ → ℕ → Type 0
Other none i = i < max_processes
Other (some after) i = (i < max_processes) × (i ≢ after)

pub data NextOutcome (t : Table) (after : Option ℕ) : Option ℕ → Type 0 where
  next :
      (i : ℕ)
      → Other after i
      → has_state (slot t i) ready ≡ true
      → ((j : ℕ) → Other after j → has_state (slot t j) ready ≡ true → rank after i ≤ rank after j)
      → NextOutcome t after (some i)
  idle : ((j : ℕ) → Other after j → has_state (slot t j) ready ≡ false) → NextOutcome t after none

-- The search from `start` visits the other slots in the order of their ranks.
Visits : ℕ → ℕ → Option ℕ → Type 0
Visits start n after =
    ((o : ℕ)
      → o < n
      → Other after ((start + o) % max_processes) × (rank after ((start + o) % max_processes) ≡ o))
    × ((j : ℕ) → Other after j → (rank after j < n) × ((start + rank after j) % max_processes ≡ j))

outcome-Scan :
    (t : Table) (after : Option ℕ) (start n : ℕ) (r : Option ℕ)
    → Visits start n after
    → Scan start 0 n t r
    → NextOutcome t after r
unfolding Visits
outcome-Scan t after start n r (there, back) (hit o h k hot cold) =
    next ((start + o) % max_processes) (there o (omega arith)).0 hot nearest
  where
    nearest :
        (j : ℕ)
        → Other after j
        → has_state (slot t j) ready ≡ true
        → rank after ((start + o) % max_processes) ≤ rank after j
    nearest j other warm = elim (Bool-cases (ltb (rank after j) o)) [
      | inl sooner ↦
          let (below, at) = back j other in
          absurd (
            false≢true (
              sym (cold (rank after j) (omega arith) (ground arith))
              ∙ subst (λ x. has_state (slot t x) ready ≡ true) (sym at) warm))
      | inr later ↦
          (let at : rank after ((start + o) % max_processes) ≡ o = (there o (omega arith)).1 in
            ground arith)
    ]
outcome-Scan t after start n r (there, back) (miss cold) = idle (λ j other.
    let (below, at) = back j other in
    subst (λ x. has_state (slot t x) ready ≡ false) at
      (cold (rank after j) (omega arith) (omega arith)))

Visits-all : Visits 0 max_processes none
unfolding Visits
Visits-all = (λ o k. (omega arith, omega arith), λ j k. (k, omega arith))

Visits-others : (a : ℕ) → a < max_processes → Visits (a + 1) (max_processes - 1) (some a)
unfolding Visits
Visits-others a h = (
  λ o k. ((omega arith, λ e. absurd (omega arith)), omega arith),
  λ j (k, ne). (omega arith, omega arith),
)

-- `process_next_runnable` returns the ready process that comes first in the cyclic order of the slots
-- after the given one, which is not considered itself, or first in the table for a null pointer;
-- the given process is one of the table. It returns 0 only if none of them is ready.
pub next_runnable_lem :
    (t : Table) (after : Option ℕ)
    → ((i : ℕ) → after ≡ some i → i < max_processes)
    → NextOutcome t after (next_runnable t after)
unfolding next_runnable
next_runnable_lem t none h =
    outcome-Scan t none 0 max_processes _ Visits-all (next_from-Scan max_processes 0 0 t)
next_runnable_lem t (some a) h =
    let below : a < max_processes = h a refl in
    rw (lt→ltb a max_processes below) (
      outcome-Scan t (some a) (a + 1) (max_processes - 1) _ (Visits-others a below)
        (next_from-Scan (max_processes - 1) 0 (a + 1) t))
