-- ===== src/Process/Table/Life.antt =====
-- `process_release` and `process_wait_zombie` of kernel/process.c.
use native.Mathlib.Decide.{ℕ_discrete}
use mathlib.Core.Bool.{false≢true}
use kolibriarm.Base.{
  ℕ, ◌+◌, ◌<◌, ◌≡◌, ◌≢◌, ◌⊎◌, ◌↔◌, refl, sym, ap, ◌∙◌, subst, Bool, true, false, ◌&&◌, ◌||◌, not,
  Option, none, some, ◌==◌, arith, inl, inr, ==→eq, get_or-set_self, get_or-set_ne, Option-cases,
  Bool-cases,
}
use kolibriarm.Pmm.{Pmm}
use kolibriarm.Process.{Process, unused, zombie, max_processes}
use kolibriarm.Process.Resources.{free_resources}
use kolibriarm.Process.Table.{
  Table, slot, has_state, is_unused, zero_process, find, points_at, release, empty_slot,
  wait_zombie, cleared, wait_found,
}
use kolibriarm.Process.Table.Inv.{
  IsValid, usage, usage-is_unused, usage_live, count_used_pos, set-IsValid, find-some,
}

-- Slot i has been emptied, the other slots and a current process in another slot are as they were.
pub record Emptied (t : Table) (i : ℕ) (u : Table) : Type 0 where
  pub idle : is_unused (slot u i) ≡ true
  pub same : (j : ℕ) → j ≢ i → slot u j ≡ slot t j
  pub count : u.count + usage (slot t i) ≡ t.count
  pub current : (j : ℕ) → (u.current ≡ some j) ↔ ((j ≢ i) × (t.current ≡ some j))
  pub valid : IsValid u

pub points_at-some : (c : Option ℕ) (i : ℕ) → points_at c i ≡ true → c ≡ some i
points_at-some none i e = ground arith
points_at-some (some j) i e = ap some (==→eq j i e)

pub points_at_ne : (c : Option ℕ) (i j : ℕ) → points_at c i ≡ false → c ≡ some j → j ≢ i
points_at_ne none i j e f = ground arith
points_at_ne (some k) i j e f = ground arith

pub points_at_self : (c : Option ℕ) (i : ℕ) → c ≡ some i → points_at c i ≡ true
points_at_self none i e = ground arith
points_at_self (some j) i e = ground arith

pub held_back :
    (t : Table) (i : ℕ) (over : Bool)
    → points_at t.current i || not over ≡ true
    → (t.current ≡ some i) ⊎ (over ≡ false)
held_back t i over e = elim (Bool-cases (points_at t.current i)) [
  | inl at ↦ inl (points_at-some t.current i at)
  | inr off ↦ inr (ground arith)
]

cleared-is_unused : (p : Process) → is_unused (cleared p) ≡ true
cleared-is_unused p = refl

Emptied-find :
    (t : Table) (i pid : ℕ) (u : Table)
    → IsValid t
    → Emptied t i u
    → find t pid ≡ some i
    → find u pid ≡ none
Emptied-find t i pid u v w hit = elim (Option-cases (find u pid)) [
  | inl miss ↦ miss
  | inr (j, again) ↦ elim (ℕ_discrete j i) [
    | yes same ↦ absurd (
        false≢true (
          sym (subst (λ k. is_unused (slot u k) ≡ false) same (find-some u pid j again).1)
          ∙ w.idle))
    | no ne ↦
        let (k, x, p, z) = find-some u pid j again in
        let old = w.same j ne in
        let (h, y, q, z') = find-some t pid i hit in
        absurd (
          ne (
            v.distinct j i k h (subst (λ r. is_unused r ≡ false) old x) y
              (ap (λ r. r.pid) (sym old) ∙ p ∙ sym q)))
  ]
]

-- A process that has ended is waited for, or there is none.
pub data WaitOutcome (t : Table) (pmm : Pmm) (pid : ℕ) (r : Option ℕ × Table × Pmm) : Type 0 where
  reaped :
      (i : ℕ)
      → find t pid ≡ some i
      → t.current ≢ some i
      → has_state (slot t i) zombie ≡ true
      → r.0 ≡ some (slot t i).exit_code
      → Emptied t i r.1
      → find r.1 pid ≡ none
      → WaitOutcome t pmm pid r
  waiting :
      r ≡ (none, t, pmm)
      → ((i : ℕ)
          → find t pid ≡ some i
          → (t.current ≡ some i) ⊎ (has_state (slot t i) zombie ≡ false))
      → WaitOutcome t pmm pid r

module _ (free_table : ℕ → Pmm → Pmm) where
  empty_slot-Emptied :
      (t : Table) (pmm : Pmm) (i : ℕ)
      → IsValid t
      → i < max_processes
      → Emptied t i (empty_slot free_table i t pmm).0
  unfolding empty_slot
  empty_slot-Emptied t pmm i v h = record {
    idle = rw here refl;
    same = there;
    count = counted;
    current = λ j. (only j, back j);
    valid =
        set-IsValid t i gone left.current left.count v h (λ u e. absurd (ground arith))
          (λ j k u w e. absurd (ground arith)) (omega (arith, counted)) present;
  }
    where
      left : Table
      left = (empty_slot free_table i t pmm).0

      gone : Process
      gone = cleared (free_resources free_table (slot t i) pmm).0

      here : slot left i ≡ gone
      here = get_or-set_self t.processes i gone zero_process (omega (arith, v.slots))

      there : (j : ℕ) → j ≢ i → slot left j ≡ slot t j
      there j ne = get_or-set_ne t.processes i j gone zero_process (λ e. ne (sym e))

      counted : left.count + usage (slot t i) ≡ t.count
      counted = elim (Bool-cases (is_unused (slot t i))) [
        | inl idle ↦ ground (arith, usage-is_unused (slot t i) idle)
        | inr live ↦ ground (
          arith,
          usage_live (slot t i) live,
          v.counted,
          count_used_pos t.processes i (omega (arith, v.slots)) live,
        )
      ]

      only : (j : ℕ) → left.current ≡ some j → (j ≢ i) × (t.current ≡ some j)
      only j e = elim (Bool-cases (points_at t.current i)) [
        | inl at ↦ absurd (ground arith)
        | inr off ↦
            (let old : t.current ≡ some j = rw off at e in
              (points_at_ne t.current i j off old, old))
      ]

      back : (j : ℕ) → (j ≢ i) × (t.current ≡ some j) → left.current ≡ some j
      back j (ne, e) = elim (Bool-cases (points_at t.current i)) [
        | inl at ↦ absurd (ground (arith, points_at-some t.current i at))
        | inr off ↦ rw off e
      ]

      present :
          (j : ℕ) → left.current ≡ some j → (j < max_processes) × (is_unused (slot left j) ≡ false)
      present j e =
          let (ne, old) = only j e in let (k, u) = v.present j old in (k, rw (there j ne) u)

  pub release-Emptied :
      (t : Table) (pmm : Pmm) (i : ℕ)
      → IsValid t
      → i < max_processes
      → Emptied t i (release free_table i t pmm).0
  unfolding release
  release-Emptied t pmm i v h =
      elim (Bool-cases (
        has_state (slot t i) unused
        && (slot t i).page_table == 0
        && (slot t i).user_region_count == 0)) [
          | inl stop ↦ rw stop (
              let idle : is_unused (slot t i) ≡ true = ground arith in
              record {
                idle = idle;
                same = λ j ne. refl;
                count = omega (arith, usage-is_unused (slot t i) idle);
                current = λ j. (
                  λ e. (
                    λ same. false≢true (
                        sym (subst (λ k. is_unused (slot t k) ≡ false) same (v.present j e).1)
                        ∙ idle),
                    e,
                  ),
                  λ (ne, e). e,
                );
                valid = v;
              })
          | inr go ↦ rw go (empty_slot-Emptied t pmm i v h)
        ]

  wait_found_lem :
      (t : Table) (pmm : Pmm) (pid i : ℕ)
      → IsValid t
      → find t pid ≡ some i
      → WaitOutcome t pmm pid (wait_found free_table t pmm (some i))
  wait_found_lem t pmm pid i v hit =
      elim (Bool-cases (points_at t.current i || not (has_state (slot t i) zombie))) [
        | inl stop ↦ rw stop (
            waiting refl (λ j e.
              (let same : i ≡ j = ground arith in
                subst (λ k. (t.current ≡ some k) ⊎ (has_state (slot t k) zombie ≡ false)) same
                  (held_back t i (has_state (slot t i) zombie) stop))))
        | inr go ↦ rw go (
            let gone = release-Emptied t pmm i v (find-some t pid i hit).0 in
            reaped i hit (λ e. absurd (ground (arith, points_at_self t.current i e))) (ground arith)
              refl gone (Emptied-find t i pid _ v gone hit))
      ]

  pub wait_zombie_lem :
      (t : Table) (pmm : Pmm) (pid : ℕ)
      → IsValid t
      → WaitOutcome t pmm pid (wait_zombie free_table t pmm pid)
  unfolding wait_zombie
  wait_zombie_lem t pmm pid v = elim (Option-cases (find t pid)) [
    | inl miss ↦ rw miss (waiting refl (λ j e. absurd (ground arith)))
    | inr (i, hit) ↦ rw hit (wait_found_lem t pmm pid i v hit)
  ]
