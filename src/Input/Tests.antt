-- ===== src/Input/Tests.antt =====
-- Keys of drivers/input/input.c.
use kolibriarm.Base.{◌≡◌, refl, inl, inr, List, [], ◌∷◌, replicate, arith}
use kolibriarm.Input.{Input, idle, push, poll, push_key_event, inject_byte}
use kolibriarm.Input.Ring.{IsValid, PushOutcome, PollOutcome, push_lem, poll_lem}
use kolibriarm.Input.Escape.{key_event}
use kolibriarm.Input.Typing.{
  Stroke, char, escaped, page_up, unknown, broken, all_bytes, all_keys, inject_all, Typed,
  inject_all_lem,
}

-- Two events that go round the end of the ring.
abbrev wrapped : Input
wrapped = record {
  event_queue = replicate 64 (key_event 97);
  event_head = 63;
  event_tail = 1;
  event_count = 2;
  esc_state = idle;
  esc_discard = 0;
}

wrapped-IsValid : IsValid wrapped
wrapped-IsValid = record {
  size = refl;
  head = omega arith;
  count = omega arith;
  tail = omega arith;
}

push_lem_example : PushOutcome wrapped (key_event 98) (push wrapped (key_event 98))
push_lem_example = push_lem wrapped (key_event 98) wrapped-IsValid

poll_lem_example : PollOutcome wrapped (poll wrapped)
poll_lem_example = poll_lem wrapped wrapped-IsValid

-- Page Up, `a`, ESC and `x`, a sequence with a wrong last byte and one that no key sends.
abbrev typing : List Stroke
typing = page_up ∷ char 97 ∷ escaped 120 ∷ broken 53 65 ∷ unknown 72 ∷ []

inject_all_lem_example :
    Typed wrapped
      (0x1b ∷ 0x105 ∷ 97 ∷ 0x1b ∷ 120 ∷ 0x1b ∷ 0x1b ∷ [])
      (inject_all (all_bytes typing) wrapped)
    × ((inject_all (all_bytes typing) wrapped).esc_state ≡ idle)
unfolding all_keys
inject_all_lem_example =
    inject_all_lem wrapped typing wrapped-IsValid refl
      (
        tt,
        (
          (λ e. omega (arith, e)),
          (
            ((λ e. omega (arith, e)), λ e. omega (arith, e)),
            (
              (omega arith, omega arith, inl (λ e. omega (arith, e))),
              ((omega arith, inr (omega arith), inr (omega arith)), tt),
            ),
          ),
        ),
      )
      (omega arith)

-- A byte that does not go on an escape sequence is queued as a key.
stray_queued : (inject_byte (inject_byte wrapped 0x1b) 120).event_count ≡ 4
unfolding inject_byte push_key_event push
stray_queued = refl
