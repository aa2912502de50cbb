-- ===== src/Process/Table/Inv.antt =====
-- The invariant of the process table of kernel/process.c.
use native.Mathlib.Decide.{ℕ_discrete}
use kolibriarm.Base.{
  ℕ, zero, suc, ◌+◌, ◌<◌, ◌≤◌, ◌≡◌, ◌≢◌, ◌⊎◌, refl, sym, ap, ◌∙◌, subst, true, false, List, [], ◌∷◌,
  Option, none, some, ◌==◌, if◌then◌else◌, get_or, set, length, length-set, arith, inl, inr,
  get_or-set_self, get_or-set_ne, first_index, first_index-some, first_index-none, Bool-cases,
}
use kolibriarm.Process.{Process, max_processes}
use kolibriarm.Process.Table.{Table, slot, is_unused, is_pid, zero_process, find}

abbrev pub usage : Process → ℕ
usage process = if is_unused process then 0 else 1

abbrev pub count_used : List Process → ℕ
count_used [] = 0
count_used (p ∷ ps) = usage p + count_used ps

pub record IsValid (t : Table) : Type 0 where
  pub slots : length t.processes ≡ max_processes
  pub counted : t.count ≡ count_used t.processes
  pub named : (i : ℕ) → i < max_processes → is_unused (slot t i) ≡ false → (slot t i).pid ≢ 0
  pub distinct :
      (i j : ℕ)
      → i < max_processes
      → j < max_processes
      → is_unused (slot t i) ≡ false
      → is_unused (slot t j) ≡ false
      → (slot t i).pid ≡ (slot t j).pid
      → i ≡ j
  pub present : (i : ℕ) → t.current ≡ some i → (i < max_processes) × (is_unused (slot t i) ≡ false)

pub count_used-set :
    (ps : List Process) (i : ℕ) (q : Process)
    → i < length ps
    → count_used (set ps i q) + usage (get_or ps i zero_process) ≡ count_used ps + usage q
count_used-set [] i q h = absurd (omega arith)
count_used-set (p ∷ ps) zero q h = omega arith
count_used-set (p ∷ ps) (suc i) q h = omega (arith, count_used-set ps i q (omega arith))

pub count_used_le : (ps : List Process) → count_used ps ≤ length ps
count_used_le [] = omega arith
count_used_le (p ∷ ps) = ground (arith, count_used_le ps)

pub usage-is_unused : (p : Process) → is_unused p ≡ true → usage p ≡ 0
usage-is_unused p e = rw e refl

pub usage_live : (p : Process) → is_unused p ≡ false → usage p ≡ 1
usage_live p e = rw e refl

pub count_used_pos :
    (ps : List Process) (i : ℕ)
    → i < length ps
    → is_unused (get_or ps i zero_process) ≡ false
    → 0 < count_used ps
count_used_pos [] i h u = absurd (omega arith)
count_used_pos (p ∷ ps) zero h u = omega (arith, usage_live p u)
count_used_pos (p ∷ ps) (suc i) h u = omega (arith, count_used_pos ps i (omega arith) u)

-- Writing one slot keeps the table valid if the new process has a pid of its own.
pub set-IsValid :
    (t : Table) (i : ℕ) (q : Process) (current : Option ℕ) (count : ℕ)
    → IsValid t
    → i < max_processes
    → (is_unused q ≡ false → q.pid ≢ 0)
    → ((j : ℕ)
        → j < max_processes
        → is_unused q ≡ false
        → is_unused (slot t j) ≡ false
        → (slot t j).pid ≡ q.pid
        → j ≡ i)
    → count + usage (slot t i) ≡ t.count + usage q
    → ((j : ℕ)
        → current ≡ some j
        → (j < max_processes)
          × (is_unused (
                slot
                  (record { processes = set t.processes i q; current = current; count = count })
                  j)
              ≡ false))
    → IsValid (record { processes = set t.processes i q; current = current; count = count })
set-IsValid t i q current count v h pid own used present = record {
  slots = length-set t.processes i q ∙ v.slots;
  counted = omega (arith, count_used-set t.processes i q (omega (arith, v.slots)), v.counted, used);
  named = named;
  distinct = distinct;
  present = present;
}
  where
    new : Table
    new = record { processes = set t.processes i q; current = current; count = count }

    here : (j : ℕ) → i ≡ j → slot new j ≡ q
    here j same =
        ap (slot new) (sym same)
        ∙ get_or-set_self t.processes i q zero_process (omega (arith, v.slots))

    live : (p r : Process) → p ≡ r → is_unused p ≡ false → is_unused r ≡ false
    live p r same = subst (λ x. is_unused x ≡ false) same

    there : (j : ℕ) → i ≢ j → slot new j ≡ slot t j
    there j ne = get_or-set_ne t.processes i j q zero_process ne

    named : (j : ℕ) → j < max_processes → is_unused (slot new j) ≡ false → (slot new j).pid ≢ 0
    named j k u e = elim (ℕ_discrete i j) [
      | yes same ↦ pid (live _ _ (here j same) u) (subst (λ p. p.pid ≡ 0) (here j same) e)
      | no ne ↦ v.named j k (live _ _ (there j ne) u) (subst (λ p. p.pid ≡ 0) (there j ne) e)
    ]

    distinct :
        (j k : ℕ)
        → j < max_processes
        → k < max_processes
        → is_unused (slot new j) ≡ false
        → is_unused (slot new k) ≡ false
        → (slot new j).pid ≡ (slot new k).pid
        → j ≡ k
    distinct j k hj hk uj uk e = elim (ℕ_discrete i j) [
      | yes a ↦ elim (ℕ_discrete i k) [
        | yes b ↦ sym a ∙ b
        | no ne ↦
            sym a
            ∙ sym (
                own k hk (live _ _ (here j a) uj) (live _ _ (there k ne) uk)
                  (ap (λ p. p.pid) (sym (there k ne)) ∙ sym e ∙ ap (λ p. p.pid) (here j a)))
      ]
      | no ne ↦ elim (ℕ_discrete i k) [
        | yes b ↦
            own j hj (live _ _ (here k b) uk) (live _ _ (there j ne) uj)
              (ap (λ p. p.pid) (sym (there j ne)) ∙ e ∙ ap (λ p. p.pid) (here k b))
            ∙ b
        | no nf ↦
            v.distinct j k hj hk (live _ _ (there j ne) uj) (live _ _ (there k nf) uk)
              (ap (λ p. p.pid) (sym (there j ne)) ∙ e ∙ ap (λ p. p.pid) (there k nf))
      ]
    ]

-- Rewriting a process keeps the table valid if the pid stays and the process stays in use.
pub update-IsValid :
    (t : Table) (i : ℕ) (q : Process) (current : Option ℕ)
    → IsValid t
    → i < max_processes
    → is_unused (slot t i) ≡ false
    → is_unused q ≡ false
    → q.pid ≡ (slot t i).pid
    → ((j : ℕ) → current ≡ some j → (j ≡ i) ⊎ (t.current ≡ some j))
    → IsValid (record { processes = set t.processes i q; current = current; count = t.count })
update-IsValid t i q current v h u w p c =
    set-IsValid t i q current t.count v h (λ k e. v.named i h u (sym p ∙ e))
      (λ j k x y e. v.distinct j i k h y u (e ∙ p))
      (omega (arith, usage_live (slot t i) u, usage_live q w)) present
  where
    new : Table
    new = record { processes = set t.processes i q; current = current; count = t.count }

    present : (j : ℕ) → current ≡ some j → (j < max_processes) × (is_unused (slot new j) ≡ false)
    present j e = elim (ℕ_discrete i j) [
      | yes same ↦
          let here : slot new j ≡ q =
            ap (slot new) (sym same)
            ∙ get_or-set_self t.processes i q zero_process (omega (arith, v.slots)) in
          (subst (λ k. k < max_processes) same h, subst (λ x. is_unused x ≡ false) (sym here) w)
      | no ne ↦ elim (c j e) [
        | inl same ↦ absurd (ne (sym same))
        | inr old ↦
            let (k, live) = v.present j old in
            let there = get_or-set_ne t.processes i j q zero_process ne in
            (k, subst (λ x. is_unused x ≡ false) (sym there) live)
      ]
    ]

pub find-some :
    (t : Table) (pid i : ℕ)
    → find t pid ≡ some i
    → (i < max_processes) × (is_unused (slot t i) ≡ false) × ((slot t i).pid ≡ pid) × (pid ≢ 0)
unfolding find
find-some t pid i e = elim (Bool-cases (pid == 0)) [
  | inl z ↦ absurd (ground arith)
  | inr pos ↦
      let hit : first_index (is_pid pid) max_processes t.processes ≡ some i = rw pos at e in
      let (h, _, test) =
        first_index-some (is_pid pid) max_processes t.processes zero_process i hit in
      (h, ground arith, ground arith, ground arith)
]

pub find-none :
    (t : Table) (pid i : ℕ)
    → IsValid t
    → find t pid ≡ none
    → i < max_processes
    → is_unused (slot t i) ≡ false
    → (slot t i).pid ≢ pid
unfolding find
find-none t pid i v e h u = elim (Bool-cases (pid == 0)) [
  | inl z ↦ λ same. v.named i h u (ground arith)
  | inr pos ↦
      let miss : first_index (is_pid pid) max_processes t.processes ≡ none = rw pos at e in
      let test =
        first_index-none (is_pid pid) max_processes t.processes zero_process i miss h
          (omega (arith, v.slots)) in
      ground arith
]
