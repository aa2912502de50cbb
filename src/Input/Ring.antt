-- ===== src/Input/Ring.antt =====
-- The ring of drivers/input/input.c as a sequence: event k stands k places behind the head.
use kolibriarm.Base.{
  ℕ, ◌+◌, ◌%◌, ◌<◌, ◌≤◌, ◌≡◌, refl, ap, ◌∙◌, Option, none, some, leb, ◌==◌, get_or, Status, ok,
  failed, length, length-set, get_or-set_self, get_or-set_ne, arith, inl, inr, Bool-cases, ==→eq,
}
use kolibriarm.Input.{Event, Input, queue_size, zero_event, push, poll, peek}

abbrev pub nth : Input → ℕ → Event
nth s k = get_or s.event_queue ((s.event_head + k) % queue_size) zero_event

pub record IsValid (s : Input) : Type 0 where
  pub size : length s.event_queue ≡ queue_size
  pub head : s.event_head < queue_size
  pub count : s.event_count ≤ queue_size
  pub tail : s.event_tail ≡ (s.event_head + s.event_count) % queue_size

-- The event stands behind the others, which are as they were.
pub record Pushed (s : Input) (event : Event) (r : Input) : Type 0 where
  pub count : r.event_count ≡ s.event_count + 1
  pub new : nth r s.event_count ≡ event
  pub old : (j : ℕ) → j < s.event_count → nth r j ≡ nth s j
  pub state : r.esc_state ≡ s.esc_state
  pub discard : r.esc_discard ≡ s.esc_discard
  pub valid : IsValid r

pub data PushOutcome (s : Input) (event : Event) (r : Status × Input) : Type 0 where
  pushed : s.event_count < queue_size → r.0 ≡ ok → Pushed s event r.1 → PushOutcome s event r
  full : s.event_count ≡ queue_size → r ≡ (failed, s) → PushOutcome s event r

-- On a valid queue `input_queue_push` adds the event behind the others and keeps the queue valid; it
-- fails and changes nothing only if the queue holds 64 events.
pub push_lem : (s : Input) (event : Event) → IsValid s → PushOutcome s event (push s event)
unfolding push
push_lem s event v = elim (Bool-cases (leb queue_size s.event_count)) [
  | inl e ↦ rw e (full (ground (arith, v.count)) refl)
  | inr e ↦
      let room : s.event_count < queue_size = ground arith in
      rw e (
        pushed room refl record {
          count = refl;
          new =
              rw v.tail (get_or-set_self s.event_queue _ event zero_event (omega (arith, v.size)));
          old = λ j h. rw v.tail (
              get_or-set_ne s.event_queue _ _ event zero_event
                (λ same. absurd (omega (arith, v.head))));
          state = refl;
          discard = refl;
          valid = record {
            size = length-set s.event_queue _ _ ∙ v.size;
            head = v.head;
            count = omega arith;
            tail = omega (arith, v.tail, v.head);
          };
        })
]

-- The oldest event has been taken out, or there was none.
pub data PollOutcome (s : Input) (r : Option Event × Input) : Type 0 where
  polled :
      0 < s.event_count
      → r.0 ≡ some (nth s 0)
      → peek s ≡ r.0
      → r.1.event_count + 1 ≡ s.event_count
      → ((j : ℕ) → nth r.1 j ≡ nth s (j + 1))
      → r.1.esc_state ≡ s.esc_state
      → IsValid r.1
      → PollOutcome s r
  empty : s.event_count ≡ 0 → peek s ≡ none → r ≡ (none, s) → PollOutcome s r

-- On a valid queue `input_queue_poll` returns the oldest event, the one that `input_queue_peek` shows,
-- leaves the later ones in their order and keeps the queue valid; it fails and changes nothing only if
-- the queue is empty.
pub poll_lem : (s : Input) → IsValid s → PollOutcome s (poll s)
unfolding poll peek
poll_lem s v = elim (Bool-cases (s.event_count == 0)) [
  | inl z ↦ empty (==→eq s.event_count 0 z) (rw z refl) (rw z refl)
  | inr pos ↦ rw pos (
      polled (ground arith)
        (ap (λ i. some (get_or s.event_queue i zero_event)) (omega (arith, v.head))) (rw pos refl)
        (ground arith) (λ j. ap (λ i. get_or s.event_queue i zero_event) (omega arith)) refl
        record {
          size = v.size;
          head = omega arith;
          count = omega (arith, v.count);
          tail = ground (arith, v.tail, v.head, v.count);
        })
]
