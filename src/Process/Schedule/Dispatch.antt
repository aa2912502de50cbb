-- ===== src/Process/Schedule/Dispatch.antt =====
-- `process_dispatch_next` of kernel/process.c.
use mathlib.Core.Bool.{false≢true}
use native.Mathlib.Decide.{ℕ_discrete}
use kolibriarm.Base.{
  ℕ, ◌<◌, ◌≡◌, ◌≢◌, ◌⊎◌, refl, sym, ap, ◌∙◌, subst, Bool, true, false, List, Option, none, some,
  get_or, if◌then◌else◌, arith, inl, inr, Bool-cases, get_or-set_self, get_or-set_ne, set,
}
use kolibriarm.Process.{
  Process, Policy, exit, preempt, ready, running, Frame, load_context, max_processes,
}
use kolibriarm.Process.Table.{Table, slot, has_state, is_unused, points_at, alloc, zero_process}
use kolibriarm.Process.Table.Inv.{IsValid, update-IsValid}
use kolibriarm.Process.Table.Alloc.{AllocOutcome, allocated, refused, alloc_lem, init-state}
use kolibriarm.Process.Table.Life.{points_at-some, points_at_self}
use kolibriarm.Process.Schedule.{dispatch_next, dispatch_found, yield_current, switch_to}
use kolibriarm.Process.Schedule.Next.{NextOutcome, next, Other, next_runnable_lem}

-- What the policy makes of the process that is left.
abbrev pub left_behind : Policy → Process → Process
left_behind exit p = p
left_behind preempt p = if has_state p running then record p { state = ready } else p

abbrev pub resumed : Process → Process
resumed p = record p { state = running }

-- The switch to another process has been made, or there was none to switch to.
pub data DispatchOutcome (t : Table) (current : Option ℕ) (frame : Frame) (policy : Policy)
    (r : Bool × Table × Frame) : Type 0 where
  switched :
      (i : ℕ)
      → NextOutcome t current (some i)
      → r.0 ≡ true
      → r.1.current ≡ some i
      → slot r.1 i ≡ resumed (slot t i)
      → r.2 ≡ load_context (slot t i) frame
      → ((j : ℕ) → current ≡ some j → slot r.1 j ≡ left_behind policy (slot t j))
      → ((j : ℕ) → j ≢ i → current ≢ some j → slot r.1 j ≡ slot t j)
      → IsValid r.1
      → DispatchOutcome t current frame policy r
  stayed :
      r ≡ (false, t, frame)
      → ((current ≡ none) × (policy ≡ preempt)) ⊎ NextOutcome t current none
      → DispatchOutcome t current frame policy r

load_context-resumed : (p : Process) (f : Frame) → load_context (resumed p) f ≡ load_context p f
unfolding load_context
load_context-resumed p f = refl

-- The process that is left is in its state, the others are as they were.
record Yielded (t : Table) (current : Option ℕ) (policy : Policy) (u : Table) : Type 0 where
  left : (j : ℕ) → current ≡ some j → slot u j ≡ left_behind policy (slot t j)
  others : (j : ℕ) → current ≢ some j → slot u j ≡ slot t j
  valid : IsValid u

yield_current-Yielded :
    (t : Table) (current : Option ℕ) (policy : Policy)
    → IsValid t
    → ((i : ℕ) → current ≡ some i → i < max_processes)
    → Yielded t current policy (yield_current t current policy)
yield_current-Yielded t none policy v h = record {
  left = λ j e. absurd (ground arith);
  others = λ j ne. refl;
  valid = v;
}
yield_current-Yielded t (some i) exit v h = record {
  left = λ j e. refl;
  others = λ j ne. refl;
  valid = v;
}
yield_current-Yielded t (some i) preempt v h = elim (Bool-cases (has_state (slot t i) running)) [
  | inl run ↦ rw run record {
    left = λ j e.
        (let same : i ≡ j = ground arith in
          subst
            (λ k. get_or (set t.processes i rested) k zero_process ≡ left_behind preempt (slot t k))
            same
            (get_or-set_self t.processes i rested zero_process (omega (arith, v.slots, h i refl))
              ∙ sym (rw run refl)));
    others = λ j ne. get_or-set_ne t.processes i j rested zero_process (λ e. ne (ap some e));
    valid =
        update-IsValid t i rested t.current v (h i refl) (ground arith) refl refl (λ j e. inr e);
  }
  | inr not_run ↦ rw not_run record {
    left = λ j e.
        (let same : i ≡ j = ground arith in
          subst (λ k. slot t k ≡ left_behind preempt (slot t k)) same (rw not_run refl));
    others = λ j ne. refl;
    valid = v;
  }
]
  where
    rested : Process
    rested = record (slot t i) { state = ready }

ready_used : (p : Process) → has_state p ready ≡ true → is_unused p ≡ false
ready_used p e = ground arith

Other-bound : (after : Option ℕ) (i : ℕ) → Other after i → (i < max_processes) × (after ≢ some i)
Other-bound none i h = (h, λ e. absurd (ground arith))
Other-bound (some a) i (h, ne) = (h, λ e. ne (ground arith))

chosen :
    (t : Table) (current : Option ℕ) (i : ℕ)
    → NextOutcome t current (some i)
    → Other current i × (has_state (slot t i) ready ≡ true)
chosen t current i (next _ other warm nearest) = (other, warm)

switch_to_lem :
    (t : Table) (current : Option ℕ) (frame : Frame) (policy : Policy) (i : ℕ)
    → IsValid t
    → ((j : ℕ) → current ≡ some j → j < max_processes)
    → NextOutcome t current (some i)
    → DispatchOutcome t current frame policy (dispatch_found t current frame policy (some i))
switch_to_lem t current frame policy i v h o =
    switched i o refl refl (here ∙ ap resumed old)
      (load_context-resumed (slot mid i) frame ∙ ap (λ p. load_context p frame) old)
      (λ j e. there j (λ same. away (e ∙ ap some same)) ∙ y.left j e)
      (λ j ne nf. there j ne ∙ y.others j nf) valid
  where
    mid : Table
    mid = yield_current t current policy

    y : Yielded t current policy mid
    y = yield_current-Yielded t current policy v h

    below : i < max_processes
    below = (Other-bound current i (chosen t current i o).0).0

    away : current ≢ some i
    away = (Other-bound current i (chosen t current i o).0).1

    old : slot mid i ≡ slot t i
    old = y.others i away

    here : slot (switch_to mid i frame).0 i ≡ resumed (slot mid i)
    here =
        get_or-set_self mid.processes i (resumed (slot mid i)) zero_process
          (omega (arith, y.valid.slots, below))

    there : (j : ℕ) → j ≢ i → slot (switch_to mid i frame).0 j ≡ slot mid j
    there j ne =
        get_or-set_ne mid.processes i j (resumed (slot mid i)) zero_process (λ e. ne (sym e))

    valid : IsValid (switch_to mid i frame).0
    valid =
        update-IsValid mid i (resumed (slot mid i)) (some i) y.valid below
          (subst (λ p. is_unused p ≡ false) (sym old)
            (ready_used (slot t i) (chosen t current i o).1))
          refl refl (λ j e. inl (ground arith))

found_lem :
    (t : Table) (current : Option ℕ) (frame : Frame) (policy : Policy) (r : Option ℕ)
    → IsValid t
    → ((j : ℕ) → current ≡ some j → j < max_processes)
    → NextOutcome t current r
    → DispatchOutcome t current frame policy (dispatch_found t current frame policy r)
found_lem t current frame policy none v h o = stayed refl (inr o)
found_lem t current frame policy (some i) v h o = switch_to_lem t current frame policy i v h o

-- On a valid table, from a process of the table or from none, `process_dispatch_next` with a frame
-- makes the next runnable process the running and current one and loads its context into the frame;
-- under the preemption policy a running process that is left becomes ready, all other slots are as
-- they were, and the table stays valid. It returns 0 and changes nothing only if no other process
-- is ready, or under the preemption policy without a process to preempt.
pub dispatch_next_lem :
    (t : Table) (current : Option ℕ) (frame : Frame) (policy : Policy)
    → IsValid t
    → ((i : ℕ) → current ≡ some i → i < max_processes)
    → DispatchOutcome t current frame policy (dispatch_next t current frame policy)
unfolding dispatch_next
dispatch_next_lem t none frame preempt v h = stayed refl (inl (refl, refl))
dispatch_next_lem t none frame exit v h =
    found_lem t none frame exit _ v h (next_runnable_lem t none h)
dispatch_next_lem t (some i) frame policy v h =
    found_lem t (some i) frame policy _ v h (next_runnable_lem t (some i) h)

-- Only the current process is running.
abbrev pub OneRunning : Table → Type 0
OneRunning t =
    (i : ℕ) → i < max_processes → has_state (slot t i) running ≡ true → t.current ≡ some i

left_behind-preempt : (p : Process) → has_state (left_behind preempt p) running ≡ false
left_behind-preempt p = ground arith

left_behind_halted :
    (policy : Policy) (p : Process)
    → has_state p running ≡ false
    → has_state (left_behind policy p) running ≡ false
left_behind_halted exit p e = e
left_behind_halted preempt p e = left_behind-preempt p

-- `process_dispatch_next` from the current process of a valid table keeps it true that no other process
-- than the current one is running, if the policy is preemption or the current process is not running.
pub dispatch_next-OneRunning :
    (t : Table) (frame : Frame) (policy : Policy)
    → IsValid t
    → OneRunning t
    → (policy ≡ preempt) ⊎ ((i : ℕ) → t.current ≡ some i → has_state (slot t i) running ≡ false)
    → OneRunning (dispatch_next t t.current frame policy).1
dispatch_next-OneRunning t frame policy v one stopped =
    go (dispatch_next t t.current frame policy)
      (dispatch_next_lem t t.current frame policy v (λ i e. (v.present i e).0))
  where
    halted :
        (j : ℕ) → t.current ≡ some j → has_state (left_behind policy (slot t j)) running ≡ false
    halted j e = elim stopped [
      | inl same ↦
          subst (λ x. has_state (left_behind x (slot t j)) running ≡ false) (sym same)
            (left_behind-preempt (slot t j))
      | inr not_run ↦ left_behind_halted policy (slot t j) (not_run j e)
    ]

    go : (r : Bool × Table × Frame) → DispatchOutcome t t.current frame policy r → OneRunning r.1
    go r (stayed same why) i h run =
        subst (λ u. u.current ≡ some i) (sym (ap (λ x. x.1) same))
          (one i h (subst (λ u. has_state (slot u i) running ≡ true) (ap (λ x. x.1) same) run))
    go r (switched i pick done current here loaded left others valid) j h run =
        elim (ℕ_discrete j i) [
          | yes same ↦ current ∙ ap some (sym same)
          | no ne ↦ elim (Bool-cases (points_at t.current j)) [
            | inl at ↦
                (let from = points_at-some t.current j at in
                  absurd (
                    false≢true (
                      sym (halted j from)
                      ∙ subst (λ p. has_state p running ≡ true) (left j from) run)))
            | inr off ↦
                (let elsewhere : t.current ≢ some j =
                    λ e. false≢true (sym off ∙ points_at_self t.current j e) in
                  absurd (
                    elsewhere (
                      one j h
                        (subst (λ p. has_state p running ≡ true) (others j ne elsewhere) run))))
          ]
        ]

-- A new process is ready, so that only the current one is running as before.
pub alloc-OneRunning :
    (t : Table) (pid : ℕ) (name : Option (List ℕ))
    → IsValid t
    → OneRunning t
    → OneRunning (alloc t pid name).1
alloc-OneRunning t pid name v one = go (alloc t pid name) (alloc_lem t pid name v)
  where
    go : (r : Option ℕ × Table) → AllocOutcome t pid name r → OneRunning r.1
    go r (refused same why) j k run = subst (λ x. OneRunning x.1) (sym same) one j k run
    go r (allocated i h free lowest e here there current counted valid found) j k run =
        elim (ℕ_discrete j i) [
          | yes same ↦
              (let was : has_state (slot r.1 i) running ≡ true =
                  subst (λ m. has_state (slot r.1 m) running ≡ true) same run in
                absurd (
                  false≢true (
                    sym (
                      ap (λ p. has_state p running) here ∙ rw (init-state (slot t i) pid name) refl)
                    ∙ was)))
          | no ne ↦ current ∙ one j k (subst (λ p. has_state p running ≡ true) (there j ne) run)
        ]

pub dispatch_next-IsValid :
    (t : Table) (frame : Frame) (policy : Policy)
    → IsValid t
    → IsValid (dispatch_next t t.current frame policy).1
dispatch_next-IsValid t frame policy v =
    go (dispatch_next t t.current frame policy)
      (dispatch_next_lem t t.current frame policy v (λ i e. (v.present i e).0))
  where
    go : (r : Bool × Table × Frame) → DispatchOutcome t t.current frame policy r → IsValid r.1
    go r (stayed same why) = subst (λ x. IsValid x.1) (sym same) v
    go r (switched i pick done current here loaded left others valid) = valid
