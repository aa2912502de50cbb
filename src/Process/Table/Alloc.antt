-- ===== src/Process/Table/Alloc.antt =====
-- `process_find` and `process_alloc` of kernel/process.c.
use native.Mathlib.Decide.{ℕ_discrete}
use kolibriarm.Base.{
  ℕ, ◌+◌, ◌<◌, ◌≡◌, ◌≢◌, ◌⊎◌, ◌↔◌, refl, sym, ap, ◌∙◌, subst, true, false, List, Option, none, some,
  ◌==◌, arith, inl, inr, ==→eq, get_or-set_self, get_or-set_ne, first_index, first_index-some,
  first_index-none, first_index-lowest, Option-cases, Bool-cases, u32,
}
use kolibriarm.Process.{Process, ready, max_processes, init}
use kolibriarm.Process.Table.{Table, slot, is_unused, zero_process, find, alloc, alloc_slot}
use kolibriarm.Process.Table.Inv.{
  IsValid, count_used_le, usage-is_unused, usage_live, set-IsValid, find-some, find-none,
}

-- Slot i holds the process of that pid.
abbrev pub Holds : Table → ℕ → ℕ → Type 0
Holds t pid i = (i < max_processes) × (is_unused (slot t i) ≡ false) × ((slot t i).pid ≡ pid)

-- On a valid table `process_find` returns a slot exactly if the slot holds a process of that pid,
-- which is not 0.
pub find_iff :
    (t : Table) (pid i : ℕ) → IsValid t → (find t pid ≡ some i) ↔ ((pid ≢ 0) × Holds t pid i)
find_iff t pid i v = (only, back)
  where
    only : find t pid ≡ some i → (pid ≢ 0) × Holds t pid i
    only e = let (h, u, p, nz) = find-some t pid i e in (nz, (h, u, p))

    back : (pid ≢ 0) × Holds t pid i → find t pid ≡ some i
    back (nz, (h, u, p)) = elim (Option-cases (find t pid)) [
      | inl miss ↦ absurd (find-none t pid i v miss h u p)
      | inr (j, hit) ↦
          let (k, w, q, nz) = find-some t pid j hit in
          hit ∙ ap some (v.distinct j i k h w u (q ∙ sym p))
    ]

pub init-pid : (p : Process) (pid : ℕ) (name : Option (List ℕ)) → (init p pid name).pid ≡ pid
unfolding init
init-pid p pid name = refl

pub init-state : (p : Process) (pid : ℕ) (name : Option (List ℕ)) → (init p pid name).state ≡ ready
unfolding init
init-state p pid name = refl

pub data AllocOutcome (t : Table) (pid : ℕ) (name : Option (List ℕ)) (r : Option ℕ × Table)
    : Type 0 where
  allocated :
      (i : ℕ)
      → i < max_processes
      → is_unused (slot t i) ≡ true
      → ((j : ℕ) → j < i → is_unused (slot t j) ≡ false)
      → r.0 ≡ some i
      → slot r.1 i ≡ init (slot t i) pid name
      → ((j : ℕ) → j ≢ i → slot r.1 j ≡ slot t j)
      → r.1.current ≡ t.current
      → r.1.count ≡ t.count + 1
      → IsValid r.1
      → find r.1 pid ≡ some i
      → AllocOutcome t pid name r
  refused :
      r ≡ (none, t)
      → (pid ≡ 0)
        ⊎ (((i : ℕ) × Holds t pid i) ⊎ ((i : ℕ) → i < max_processes → is_unused (slot t i) ≡ false))
      → AllocOutcome t pid name r

alloc_slot_lem :
    (t : Table) (pid i : ℕ) (name : Option (List ℕ))
    → IsValid t
    → pid ≢ 0
    → find t pid ≡ none
    → first_index is_unused max_processes t.processes ≡ some i
    → AllocOutcome t pid name (alloc_slot t pid name (some i))
alloc_slot_lem t pid i name v nz miss hit =
    allocated i h idle
      (λ j k. first_index-lowest is_unused max_processes t.processes zero_process i j hit k) refl
      here there refl counted valid
      ((find_iff new pid i valid).1 (
        nz,
        (
          h,
          subst (λ p. is_unused p ≡ false) (sym here) live,
          ap (λ p. p.pid) here ∙ init-pid _ pid name,
        ),
      ))
  where
    fresh : Process
    fresh = init (slot t i) pid name

    new : Table
    new = (alloc_slot t pid name (some i)).1

    h : i < max_processes
    h = (first_index-some is_unused max_processes t.processes zero_process i hit).0

    idle : is_unused (slot t i) ≡ true
    idle = (first_index-some is_unused max_processes t.processes zero_process i hit).2

    here : slot new i ≡ fresh
    here = get_or-set_self t.processes i fresh zero_process (omega (arith, v.slots, h))

    there : (j : ℕ) → j ≢ i → slot new j ≡ slot t j
    there j ne = get_or-set_ne t.processes i j fresh zero_process (λ e. ne (sym e))

    live : is_unused fresh ≡ false
    live = rw (init-state (slot t i) pid name) refl

    counted : new.count ≡ t.count + 1
    counted = omega (arith, v.counted, count_used_le t.processes, v.slots)

    present : (j : ℕ) → t.current ≡ some j → (j < max_processes) × (is_unused (slot new j) ≡ false)
    present j e = elim (ℕ_discrete j i) [
      | yes same ↦ (rw same h, rw (same, here) live)
      | no ne ↦ (let (k, w) = v.present j e in (k, rw (there j ne) w))
    ]

    valid : IsValid new
    valid =
        set-IsValid t i fresh t.current (u32 (t.count + 1)) v h
          (λ u e. nz (sym (init-pid (slot t i) pid name) ∙ e))
          (λ j k u w e. absurd (find-none t pid j v miss k w (e ∙ init-pid (slot t i) pid name)))
          (omega (arith, counted, usage-is_unused (slot t i) idle, usage_live fresh live)) present

-- On a valid table `process_alloc` initialises the lowest unused slot for a pid that is neither 0 nor
-- in use, under which `process_find` then finds it, counts it once, leaves the other slots alone and
-- keeps the table valid; it returns 0 and changes nothing only if the pid is 0 or in use, or if no
-- slot is unused.
pub alloc_lem :
    (t : Table) (pid : ℕ) (name : Option (List ℕ))
    → IsValid t
    → AllocOutcome t pid name (alloc t pid name)
unfolding alloc
alloc_lem t pid name v = elim (Bool-cases (pid == 0)) [
  | inl z ↦ rw z (refused refl (inl (==→eq pid 0 z)))
  | inr pos ↦ rw pos (elim (Option-cases (find t pid)) [
    | inr (i, hit) ↦ rw hit (refused refl (inr (inl (i, ((find_iff t pid i v).0 hit).1))))
    | inl miss ↦ rw miss (elim (Option-cases (first_index is_unused max_processes t.processes)) [
      | inr (i, hit) ↦ rw hit (alloc_slot_lem t pid i name v (ground arith) miss hit)
      | inl full ↦ rw full (
          refused refl (
            inr (
              inr (λ i h.
                first_index-none is_unused max_processes t.processes zero_process i full h
                  (omega (arith, v.slots))))))
    ])
  ])
]

pub alloc-IsValid :
    (t : Table) (pid : ℕ) (name : Option (List ℕ)) → IsValid t → IsValid (alloc t pid name).1
alloc-IsValid t pid name v = go (alloc t pid name) (alloc_lem t pid name v)
  where
    go : (r : Option ℕ × Table) → AllocOutcome t pid name r → IsValid r.1
    go r (allocated i h idle lowest e here there current counted valid found) = valid
    go r (refused same why) = subst (λ x. IsValid x.1) (sym same) v

pub alloc-current :
    (t : Table) (pid : ℕ) (name : Option (List ℕ))
    → IsValid t
    → (alloc t pid name).1.current ≡ t.current
alloc-current t pid name v = go (alloc t pid name) (alloc_lem t pid name v)
  where
    go : (r : Option ℕ × Table) → AllocOutcome t pid name r → r.1.current ≡ t.current
    go r (allocated i h idle lowest e here there current counted valid found) = current
    go r (refused same why) = ap (λ x. x.1.current) same
