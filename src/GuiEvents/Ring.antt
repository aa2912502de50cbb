-- ===== src/GuiEvents/Ring.antt =====
-- The ring of kernel/gui_events.c as a sequence: event k stands k places behind the head.
use kolibriarm.Base.{
  ℕ, ◌+◌, ◌-◌, ◌%◌, ◌<◌, ◌≤◌, ◌≡◌, ◌≢◌, ◌⊎◌, refl, sym, ap, ◌∙◌, true, false, List, Option, none,
  some, ltb, leb, ◌==◌, get_or, set, Status, ok, failed, length, length-set, get_or-set_self,
  get_or-set_ne, arith, inl, inr, Bool-cases, ==→eq,
}
use kolibriarm.GuiEvents.{
  Event, Window, event_at, queue_size, mouse_move, zero_event, last, coalesces, drop_oldest, append,
  replace_last, push_event, pop_event,
}

abbrev pub nth : Window → ℕ → Event
nth w k = event_at w ((w.event_head + k) % queue_size)

pub record IsValid (w : Window) : Type 0 where
  pub size : length w.events ≡ queue_size
  pub head : w.event_head < queue_size
  pub count : w.event_count ≤ queue_size
  pub tail : w.event_tail ≡ (w.event_head + w.event_count) % queue_size

-- Writing the place of event k changes no other of the 32 events.
module _ (w : Window) (v : IsValid w) (k : ℕ) (e : Event) (h : k < queue_size) where
  written : List Event
  written = set w.events ((w.event_head + k) % queue_size) e

  written_here : get_or written ((w.event_head + k) % queue_size) zero_event ≡ e
  unfolding written
  written_here = get_or-set_self w.events _ e zero_event (omega (arith, v.size))

  written_there :
      (j : ℕ)
      → j < queue_size
      → j ≢ k
      → get_or written ((w.event_head + j) % queue_size) zero_event ≡ nth w j
  unfolding written
  written_there j l ne =
      get_or-set_ne w.events _ _ e zero_event (λ same. ne (omega (arith, v.head)))

last-nth :
    (w : Window)
    → IsValid w
    → 0 < w.event_count
    → last w ≡ (w.event_head + (w.event_count - 1)) % queue_size
last-nth w v h = ground (arith, v.head, v.count, v.tail)

pub data PushOutcome (w : Window) (type data1 data2 : ℕ) (r : Status × Window) : Type 0 where
  closed : w.used ≡ 0 → r ≡ (failed, w) → PushOutcome w type data1 data2 r
  coalesced :
      w.used ≢ 0
      → type ≡ mouse_move
      → 0 < w.event_count
      → (nth w (w.event_count - 1)).type ≡ mouse_move
      → r.0 ≡ ok
      → r.1.event_count ≡ w.event_count
      → nth r.1 (w.event_count - 1) ≡ record { type = mouse_move; data1 = data1; data2 = data2 }
      → ((j : ℕ) → j < w.event_count - 1 → nth r.1 j ≡ nth w j)
      → IsValid r.1
      → PushOutcome w type data1 data2 r
  ignored :
      w.used ≢ 0
      → type ≡ mouse_move
      → w.event_count ≡ queue_size
      → (nth w (w.event_count - 1)).type ≢ mouse_move
      → r ≡ (ok, w)
      → PushOutcome w type data1 data2 r
  appended :
      w.used ≢ 0
      → (type ≢ mouse_move)
        ⊎ ((w.event_count ≡ 0) ⊎ ((nth w (w.event_count - 1)).type ≢ mouse_move))
      → w.event_count < queue_size
      → r.0 ≡ ok
      → r.1.event_count ≡ w.event_count + 1
      → nth r.1 w.event_count ≡ record { type = type; data1 = data1; data2 = data2 }
      → ((j : ℕ) → j < w.event_count → nth r.1 j ≡ nth w j)
      → IsValid r.1
      → PushOutcome w type data1 data2 r
  shifted :
      w.used ≢ 0
      → type ≢ mouse_move
      → w.event_count ≡ queue_size
      → r.0 ≡ ok
      → r.1.event_count ≡ queue_size
      → nth r.1 (queue_size - 1) ≡ record { type = type; data1 = data1; data2 = data2 }
      → ((j : ℕ) → j < queue_size - 1 → nth r.1 j ≡ nth w (j + 1))
      → IsValid r.1
      → PushOutcome w type data1 data2 r

drop_oldest-IsValid : (w : Window) → IsValid w → 0 < w.event_count → IsValid (drop_oldest w)
drop_oldest-IsValid w v h = record {
  size = v.size;
  head = omega arith;
  count = omega (arith, v.count);
  tail = omega (arith, v.tail, v.head, v.count);
}

append-IsValid :
    (w : Window) (type data1 data2 : ℕ)
    → IsValid w
    → w.event_count < queue_size
    → IsValid (append w type data1 data2)
append-IsValid w type data1 data2 v h = record {
  size = length-set w.events _ _ ∙ v.size;
  head = v.head;
  count = omega arith;
  tail = omega (arith, v.tail, v.head);
}

append_new :
    (w : Window) (type data1 data2 : ℕ)
    → IsValid w
    → w.event_count < queue_size
    → nth (append w type data1 data2) w.event_count
      ≡ record { type = type; data1 = data1; data2 = data2 }
unfolding written
append_new w type data1 data2 v h =
    rw v.tail
      (written_here w v w.event_count (record { type = type; data1 = data1; data2 = data2 }) h)

append_old :
    (w : Window) (type data1 data2 j : ℕ)
    → IsValid w
    → w.event_count < queue_size
    → j < w.event_count
    → nth (append w type data1 data2) j ≡ nth w j
unfolding written
append_old w type data1 data2 j v h l = rw v.tail (
    written_there w v w.event_count (record { type = type; data1 = data1; data2 = data2 }) h j
      (omega arith) (λ e. absurd (omega arith)))

drop_oldest-nth : (w : Window) (j : ℕ) → nth (drop_oldest w) j ≡ nth w (j + 1)
drop_oldest-nth w j = ap (event_at w) (omega arith)

-- The oldest event has been taken out, or there was none to take.
pub data PopOutcome (w : Window) (r : Option Event × Window) : Type 0 where
  popped :
      w.used ≢ 0
      → 0 < w.event_count
      → r.0 ≡ some (nth w 0)
      → r.1.event_count + 1 ≡ w.event_count
      → ((j : ℕ) → nth r.1 j ≡ nth w (j + 1))
      → IsValid r.1
      → PopOutcome w r
  empty : (w.used ≡ 0) ⊎ (w.event_count ≡ 0) → r ≡ (none, w) → PopOutcome w r

-- On a valid window `gui_window_pop_event` returns the oldest event and leaves the later ones in their
-- order; it fails and changes nothing for a window that is not in use or has no event.
pub pop_event_lem : (w : Window) → IsValid w → PopOutcome w (pop_event w)
unfolding pop_event
pop_event_lem w v = elim (Bool-cases (w.used == 0)) [
  | inl z ↦ rw z (empty (inl (==→eq w.used 0 z)) refl)
  | inr open_window ↦ rw open_window (elim (Bool-cases (w.event_count == 0)) [
    | inl z ↦ rw z (empty (inr (==→eq w.event_count 0 z)) refl)
    | inr some_event ↦ rw some_event (
        popped (ground arith) (ground arith) (ap (λ i. some (event_at w i)) (omega (arith, v.head)))
          (ground arith) (drop_oldest-nth w) (drop_oldest-IsValid w v (ground arith)))
  ])
]

replace_last-IsValid :
    (w : Window) (data1 data2 : ℕ) → IsValid w → IsValid (replace_last w data1 data2)
replace_last-IsValid w data1 data2 v = record {
  size = length-set w.events _ _ ∙ v.size;
  head = v.head;
  count = v.count;
  tail = v.tail;
}

replaced : Window → ℕ → ℕ → Event
replaced w data1 data2 = record { type = (event_at w (last w)).type; data1 = data1; data2 = data2 }

replace_last_new :
    (w : Window) (data1 data2 : ℕ)
    → IsValid w
    → 0 < w.event_count
    → nth (replace_last w data1 data2) (w.event_count - 1) ≡ replaced w data1 data2
unfolding written replaced
replace_last_new w data1 data2 v h =
    ap
      (λ i.
        get_or (set w.events i (replaced w data1 data2))
          ((w.event_head + (w.event_count - 1)) % queue_size) zero_event)
      (last-nth w v h)
    ∙ written_here w v (w.event_count - 1) (replaced w data1 data2) (omega (arith, v.count))

replace_last_old :
    (w : Window) (data1 data2 j : ℕ)
    → IsValid w
    → 0 < w.event_count
    → j < w.event_count - 1
    → nth (replace_last w data1 data2) j ≡ nth w j
unfolding written replaced
replace_last_old w data1 data2 j v h l =
    ap
      (λ i.
        get_or (set w.events i (replaced w data1 data2)) ((w.event_head + j) % queue_size)
          zero_event)
      (last-nth w v h)
    ∙ written_there w v (w.event_count - 1) (replaced w data1 data2) (omega (arith, v.count)) j
        (omega (arith, v.count)) (λ e. absurd (omega arith))

coalesced_lem :
    (w : Window) (type data1 data2 : ℕ)
    → IsValid w
    → w.used ≢ 0
    → coalesces w type ≡ true
    → PushOutcome w type data1 data2 (ok, replace_last w data1 data2)
unfolding replaced
coalesced_lem w type data1 data2 v open_window e =
    coalesced open_window (ground arith) pos
      (ap (λ i. (event_at w i).type) (sym (last-nth w v pos)) ∙ moved) refl refl
      (replace_last_new w data1 data2 v pos
        ∙ ap (λ t. record { type = t; data1 = data1; data2 = data2 }) moved)
      (λ j l. replace_last_old w data1 data2 j v pos l) (replace_last-IsValid w data1 data2 v)
  where
    pos : 0 < w.event_count
    pos = ground arith

    moved : (event_at w (last w)).type ≡ mouse_move
    moved = ground arith

shifted_lem :
    (w : Window) (type data1 data2 : ℕ)
    → IsValid w
    → w.used ≢ 0
    → type ≢ mouse_move
    → w.event_count ≡ queue_size
    → PushOutcome w type data1 data2 (ok, append (drop_oldest w) type data1 data2)
shifted_lem w type data1 data2 v open_window other full =
    shifted open_window other full refl (omega arith)
      (ap (nth (append (drop_oldest w) type data1 data2)) (omega arith)
        ∙ append_new (drop_oldest w) type data1 data2 valid (omega arith))
      (λ j l.
        append_old (drop_oldest w) type data1 data2 j valid (omega arith) (omega arith)
        ∙ drop_oldest-nth w j)
      (append-IsValid (drop_oldest w) type data1 data2 valid (omega arith))
  where
    valid : IsValid (drop_oldest w)
    valid = drop_oldest-IsValid w v (omega arith)

no_move :
    (w : Window) (type : ℕ)
    → IsValid w
    → coalesces w type ≡ false
    → (type ≢ mouse_move) ⊎ ((w.event_count ≡ 0) ⊎ ((nth w (w.event_count - 1)).type ≢ mouse_move))
no_move w type v e = elim (Bool-cases (type == mouse_move)) [
  | inr other ↦ inl (ground arith)
  | inl move ↦ elim (Bool-cases (ltb 0 w.event_count)) [
    | inr none_yet ↦ inr (inl (ground arith))
    | inl pos ↦ inr (
        inr (λ same.
          let at : (event_at w (last w)).type ≡ mouse_move =
            ap (λ i. (event_at w i).type) (last-nth w v (ground arith)) ∙ same in
          ground arith))
  ]
]

-- On a valid window in use `gui_window_push_event` replaces the last event if it and the new event
-- are mouse moves; otherwise it adds the event behind the others, for which a full queue gives up
-- its oldest event, except that a mouse move for a full queue is ignored. The other events keep
-- their order and the window stays valid. For a window not in use it fails and changes nothing.
pub push_event_lem :
    (w : Window) (type data1 data2 : ℕ)
    → IsValid w
    → PushOutcome w type data1 data2 (push_event w type data1 data2)
unfolding push_event
push_event_lem w type data1 data2 v = elim (Bool-cases (w.used == 0)) [
  | inl z ↦ rw z (closed (==→eq w.used 0 z) refl)
  | inr open_window ↦ rw open_window (elim (Bool-cases (coalesces w type)) [
    | inl both ↦ rw both (coalesced_lem w type data1 data2 v (ground arith) both)
    | inr apart ↦ rw apart (elim (Bool-cases (leb queue_size w.event_count)) [
      | inr room ↦ rw room (
          appended (ground arith) (no_move w type v apart) (ground arith) refl refl
            (append_new w type data1 data2 v (ground arith))
            (λ j l. append_old w type data1 data2 j v (ground arith) l)
            (append-IsValid w type data1 data2 v (ground arith)))
      | inl full ↦ rw full (elim (Bool-cases (type == mouse_move)) [
        | inl move ↦ rw move (
            ignored (ground arith) (==→eq type mouse_move move) (ground (arith, v.count))
              (elim (no_move w type v apart) [
                | inl other ↦ absurd (ground arith)
                | inr (inl empty_queue) ↦ absurd (ground arith)
                | inr (inr other) ↦ other
              ])
              refl)
        | inr other ↦ rw other (
            shifted_lem w type data1 data2 v (ground arith) (ground arith)
              (ground (arith, v.count)))
      ])
    ])
  ])
]
