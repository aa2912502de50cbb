-- ===== src/Process/Table/Kill.antt =====
-- `process_mark_exited` and `process_kill` of kernel/process.c.
use mathlib.Core.Bool.{false≢true}
use kolibriarm.Base.{
  ℕ, ◌<◌, ◌≡◌, ◌≢◌, ◌⊎◌, refl, sym, ap, ◌∙◌, subst, true, false, ◌||◌, some, set, arith, inl, inr,
  get_or-set_self, get_or-set_ne, Option-cases, Bool-cases, Status, ok, failed,
}
use kolibriarm.Pmm.{Pmm}
use kolibriarm.Process.{Process, zombie, max_processes}
use kolibriarm.Process.Table.{
  Table, slot, has_state, is_unused, zero_process, find, points_at, wait_zombie, kill, mark_exited,
  kill_found,
}
use kolibriarm.Process.Table.Inv.{IsValid, update-IsValid, find-some}
use kolibriarm.Process.Table.Alloc.{find_iff}
use kolibriarm.Process.Table.Life.{reaped, waiting, wait_zombie_lem, points_at-some, points_at_self}

-- A process has become a zombie, or there was none to kill.
pub data KillOutcome {W : Type 0} (destroy_windows : ℕ → W → W) (t : Table) (pid exit_code : ℕ)
    (w : W) (r : Status × Table × W) : Type 0 where
  killed :
      (i : ℕ)
      → find t pid ≡ some i
      → t.current ≢ some i
      → has_state (slot t i) zombie ≡ false
      → r.0 ≡ ok
      → slot r.1 i ≡ record (slot t i) { exit_code = exit_code; state = zombie }
      → ((j : ℕ) → j ≢ i → slot r.1 j ≡ slot t j)
      → r.1.current ≡ t.current
      → r.1.count ≡ t.count
      → r.2 ≡ destroy_windows pid w
      → IsValid r.1
      → KillOutcome destroy_windows t pid exit_code w r
  spared :
      r ≡ (failed, t, w)
      → ((i : ℕ)
          → find t pid ≡ some i
          → (t.current ≡ some i) ⊎ (has_state (slot t i) zombie ≡ true))
      → KillOutcome destroy_windows t pid exit_code w r

killed-find :
    (t u : Table) (i pid : ℕ) (q : Process)
    → IsValid u
    → find t pid ≡ some i
    → slot u i ≡ q
    → is_unused q ≡ false
    → q.pid ≡ (slot t i).pid
    → find u pid ≡ some i
killed-find t u i pid q v hit here live same =
    let (h, w, p, nz) = find-some t pid i hit in
    (find_iff u pid i v).1
      (nz, (h, subst (λ x. is_unused x ≡ false) (sym here) live, ap (λ x. x.pid) here ∙ same ∙ p))

ended : Process → ℕ → Process
ended p exit_code = record p { exit_code = exit_code; state = zombie }

module _ {W : Type 0} (destroy_windows : ℕ → W → W) where
  mark_exited_live :
      (p : Process) (exit_code : ℕ) (w : W)
      → has_state p zombie ≡ false
      → mark_exited destroy_windows p exit_code w ≡ (ended p exit_code, destroy_windows p.pid w)
  unfolding mark_exited ended
  mark_exited_live p c w e = rw e refl

  ended-IsValid :
      (t : Table) (i c : ℕ)
      → IsValid t
      → i < max_processes
      → is_unused (slot t i) ≡ false
      → IsValid (record t { processes = set t.processes i (ended (slot t i) c) })
  unfolding ended
  ended-IsValid t i c v h u =
      update-IsValid t i (ended (slot t i) c) t.current v h u refl refl (λ j e. inr e)

  kill_found_lem :
      (t : Table) (pid c : ℕ) (w : W) (i : ℕ)
      → IsValid t
      → find t pid ≡ some i
      → KillOutcome destroy_windows t pid c w (kill_found destroy_windows t c w (some i))
  unfolding ended
  kill_found_lem t pid c w i v hit =
      elim (Bool-cases (points_at t.current i || has_state (slot t i) zombie)) [
        | inl stop ↦ rw stop (
            spared refl (λ j e.
              (let same : i ≡ j = ground arith in
                subst (λ k. (t.current ≡ some k) ⊎ (has_state (slot t k) zombie ≡ true)) same
                  (elim (Bool-cases (points_at t.current i)) [
                    | inl at ↦ inl (points_at-some t.current i at)
                    | inr off ↦ inr (ground arith)
                  ]))))
        | inr go ↦
            let live : has_state (slot t i) zombie ≡ false = ground arith in
            let (h, u, p, nz) = find-some t pid i hit in
            rw (go, mark_exited_live (slot t i) c w live)
              (killed i hit (λ e. absurd (ground (arith, points_at_self t.current i e))) live refl
                (get_or-set_self t.processes i (ended (slot t i) c) zero_process
                  (omega (arith, v.slots)))
                (λ j ne.
                  get_or-set_ne t.processes i j (ended (slot t i) c) zero_process (λ e. ne (sym e)))
                refl refl (ap (λ x. destroy_windows x w) p) (ended-IsValid t i c v h u))
      ]

  -- On a valid table `process_kill` makes the process of that pid a zombie with the exit code, unless
  -- it is the current process or a zombie already, destroys the windows of the pid, changes no other
  -- slot and keeps the table valid; otherwise it fails and changes nothing.
  pub kill_lem :
      (t : Table) (pid exit_code : ℕ) (w : W)
      → IsValid t
      → KillOutcome destroy_windows t pid exit_code w (kill destroy_windows t pid exit_code w)
  unfolding kill
  kill_lem t pid c w v = elim (Option-cases (find t pid)) [
    | inl miss ↦ rw miss (spared refl (λ j e. absurd (ground arith)))
    | inr (i, hit) ↦ rw hit (kill_found_lem t pid c w i v hit)
  ]

module _ (free_table : ℕ → Pmm → Pmm) {W : Type 0} (destroy_windows : ℕ → W → W) where
  -- On a valid table `process_wait_zombie` after a `process_kill` that has succeeded returns the exit
  -- code that the killer gave.
  pub wait_zombie-kill :
      (t : Table) (pid exit_code : ℕ) (w : W) (pmm : Pmm)
      → IsValid t
      → (kill destroy_windows t pid exit_code w).0 ≡ ok
      → (wait_zombie free_table (kill destroy_windows t pid exit_code w).1 pmm pid).0
        ≡ some exit_code
  wait_zombie-kill t pid c w pmm v done =
      go (kill destroy_windows t pid c w) (kill_lem destroy_windows t pid c w v) done
    where
      go :
          (r : Status × Table × W)
          → KillOutcome destroy_windows t pid c w r
          → r.0 ≡ ok
          → (wait_zombie free_table r.1 pmm pid).0 ≡ some c
      go r (spared same why) e = absurd (ground arith)
      go r (killed i hit away live fine here others current count windows valid) e =
          let still : find r.1 pid ≡ some i = killed-find t r.1 i pid _ valid hit here refl refl in
          elim (wait_zombie_lem free_table r.1 pmm pid valid) [
            | reaped j found out over code emptied gone ↦
                (let same : j ≡ i = ground arith in
                  code
                  ∙ subst (λ k. some (slot r.1 k).exit_code ≡ some c) (sym same)
                      (ap (λ x. some x.exit_code) here))
            | waiting same why ↦ elim (why i still) [
              | inl at ↦ absurd (away (sym current ∙ at))
              | inr not_over ↦
                  absurd (false≢true (sym not_over ∙ ap (λ x. has_state x zombie) here))
            ]
          ]
