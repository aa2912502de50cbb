-- ===== src/Input/Escape.antt =====
-- The escape sequences of drivers/input/input.c.
use kolibriarm.Base.{
  ℕ, ◌+◌, ◌<◌, ◌≡◌, ◌⊎◌, refl, ap, ◌∙◌, ◌&&◌, Option, none, some, leb, ◌==◌, if◌then◌else◌, arith,
  inl, inr, Bool-cases, u8,
}
use kolibriarm.Input.{
  Event, Input, EscState, idle, got_esc, got_bracket, got_bracket_digit, key_press, queue_size,
  push, push_key_event, inject_byte, inject_in, push_escape_key, push_escape_tilde, key_up,
  key_down, key_left, key_right, key_pgup, key_pgdn,
}
use kolibriarm.Input.Ring.{nth, IsValid, Pushed, PushOutcome, pushed, full, push_lem}

abbrev pub key_event : ℕ → Event
key_event key = record { body = key_press key; timestamp = 0 }

-- What the automaton makes of a byte.
abbrev pub next_state : EscState → ℕ → EscState
next_state idle c = if c == 0x1b then got_esc else idle
next_state got_esc c = if c == 91 then got_bracket else if c == 0x1b then got_esc else idle
next_state got_bracket c = if leb 48 c && leb c 57 then got_bracket_digit else idle
next_state got_bracket_digit c = idle

-- The digit that it keeps.
abbrev pub next_discard : EscState → ℕ → ℕ → ℕ
next_discard idle digit c = digit
next_discard got_esc digit c = digit
next_discard got_bracket digit c = if leb 48 c && leb c 57 then u8 c else digit
next_discard got_bracket_digit digit c = digit

-- The automaton's state and the digit.
abbrev pub Moved : EscState → ℕ → Input → Type 0
Moved state digit r = (r.esc_state ≡ state) × (r.esc_discard ≡ digit)

abbrev pub arrow : ℕ → Option ℕ
arrow c =
    if c == 65
    then some key_up
    else if c == 66
    then some key_down
    else if c == 67
    then some key_right
    else if c == 68
    then some key_left
    else none

abbrev pub page : ℕ → Option ℕ
page digit = if digit == 53 then some key_pgup else if digit == 54 then some key_pgdn else none

abbrev pub key_of : EscState → ℕ → ℕ → Option ℕ
key_of idle digit c = some c
key_of got_esc digit c = if c == 91 then none else some c
key_of got_bracket digit c = if leb 48 c && leb c 57 then none else arrow (u8 c)
key_of got_bracket_digit digit c = if c == 126 then page digit else none

-- The key stands behind the other events, or no event has been added.
pub record Queued (s : Input) (key : Option ℕ) (r : Input) : Type 0 where
  pub none_new : key ≡ none → r.event_count ≡ s.event_count
  pub new :
      (k : ℕ)
      → key ≡ some k
      → (r.event_count ≡ s.event_count + 1) × (nth r s.event_count ≡ key_event k)
  pub old : (j : ℕ) → j < s.event_count → nth r j ≡ nth s j
  pub valid : IsValid r

in_state :
    (s : Input) (state : EscState) (digit : ℕ)
    → IsValid s
    → IsValid (record s { esc_state = state; esc_discard = digit })
in_state s state digit v = record { size = v.size; head = v.head; count = v.count; tail = v.tail }

push_key :
    (s : Input) (k : ℕ)
    → IsValid s
    → s.event_count < queue_size
    → Pushed s (key_event k) (push_key_event s k)
unfolding push_key_event
push_key s k v h = go (push s (key_event k)) (push_lem s (key_event k) v)
  where
    go : (r : _) → PushOutcome s (key_event k) r → Pushed s (key_event k) r.1
    go r (pushed room fine p) = p
    go r (full f same) = absurd (omega arith)

key-Queued :
    (s : Input) (k digit : ℕ) (state : EscState)
    → IsValid s
    → s.event_count < queue_size
    → Queued s (some k) (push_key_event (record s { esc_state = state; esc_discard = digit }) k)
      × Moved state digit (push_key_event (record s { esc_state = state; esc_discard = digit }) k)
key-Queued s k digit state v h =
    let p =
      push_key (record s { esc_state = state; esc_discard = digit }) k (in_state s state digit v)
        h in
    (
      record {
        none_new = λ e. absurd (ground arith);
        new = λ j e. (p.count, p.new ∙ ap key_event (ground arith));
        old = p.old;
        valid = p.valid;
      },
      (p.state, p.discard),
    )

none-Queued :
    (s : Input) (digit : ℕ) (state : EscState)
    → IsValid s
    → Queued s none (record s { esc_state = state; esc_discard = digit })
none-Queued s digit state v = record {
  none_new = λ e. refl;
  new = λ k e. absurd (ground arith);
  old = λ j h. refl;
  valid = in_state s state digit v;
}

abbrev Injected : EscState → Input → ℕ → Input → Type 0
Injected state s c r =
    Queued s (key_of state s.esc_discard c) r
    × Moved (next_state state c) (next_discard state s.esc_discard c) r

arrow_lem :
    (s : Input) (c digit : ℕ)
    → IsValid s
    → (arrow c ≡ none) ⊎ (s.event_count < queue_size)
    → Queued s (arrow c) (push_escape_key (record s { esc_state = idle; esc_discard = digit }) c)
      × Moved idle digit (push_escape_key (record s { esc_state = idle; esc_discard = digit }) c)
arrow_lem s c digit v h = elim (Bool-cases (c == 65)) [
  | inl a ↦ rw a (key-Queued s key_up digit idle v (ground (arith, h)))
  | inr not_a ↦ rw not_a (elim (Bool-cases (c == 66)) [
    | inl b ↦ rw b (key-Queued s key_down digit idle v (ground (arith, h)))
    | inr not_b ↦ rw not_b (elim (Bool-cases (c == 67)) [
      | inl right ↦ rw right (key-Queued s key_right digit idle v (ground (arith, h)))
      | inr not_c ↦ rw not_c (elim (Bool-cases (c == 68)) [
        | inl left ↦ rw left (key-Queued s key_left digit idle v (ground (arith, h)))
        | inr other ↦ rw other (none-Queued s digit idle v, (refl, refl))
      ])
    ])
  ])
]

page_lem :
    (s : Input) (c digit : ℕ)
    → IsValid s
    → (page c ≡ none) ⊎ (s.event_count < queue_size)
    → Queued s (page c) (push_escape_tilde (record s { esc_state = idle; esc_discard = digit }) c)
      × Moved idle digit (push_escape_tilde (record s { esc_state = idle; esc_discard = digit }) c)
page_lem s c digit v h = elim (Bool-cases (c == 53)) [
  | inl up ↦ rw up (key-Queued s key_pgup digit idle v (ground (arith, h)))
  | inr not_up ↦ rw not_up (elim (Bool-cases (c == 54)) [
    | inl down ↦ rw down (key-Queued s key_pgdn digit idle v (ground (arith, h)))
    | inr other ↦ rw other (none-Queued s digit idle v, (refl, refl))
  ])
]

inject_in_lem :
    (state : EscState) (s : Input) (c : ℕ)
    → IsValid s
    → (key_of state s.esc_discard c ≡ none) ⊎ (s.event_count < queue_size)
    → s.esc_state ≡ state
    → Injected state s c (inject_in state s c)
inject_in_lem idle s c v h e = elim (Bool-cases (c == 0x1b)) [
  | inl esc ↦ rw esc (key-Queued s c s.esc_discard got_esc v (ground (arith, h)))
  | inr other ↦ rw other (
      let (q, (f, d)) = key-Queued s c s.esc_discard s.esc_state v (ground (arith, h)) in
      (q, (f ∙ e, d)))
]
inject_in_lem got_esc s c v h e = elim (Bool-cases (c == 91)) [
  | inl bracket ↦ rw bracket (none-Queued s s.esc_discard got_bracket v, (refl, refl))
  | inr not_bracket ↦ rw not_bracket (elim (Bool-cases (c == 0x1b)) [
    | inl esc ↦ rw esc (key-Queued s c s.esc_discard got_esc v (ground (arith, h)))
    | inr other ↦ rw other (key-Queued s c s.esc_discard idle v (ground (arith, h)))
  ])
]
inject_in_lem got_bracket s c v h e = elim (Bool-cases (leb 48 c && leb c 57)) [
  | inl digit ↦ rw digit (none-Queued s (u8 c) got_bracket_digit v, (refl, refl))
  | inr other ↦ rw other (arrow_lem s (u8 c) s.esc_discard v (ground (arith, h)))
]
inject_in_lem got_bracket_digit s c v h e = elim (Bool-cases (c == 126)) [
  | inl tilde ↦ rw tilde (page_lem s s.esc_discard s.esc_discard v (ground (arith, h)))
  | inr other ↦ rw other (none-Queued s s.esc_discard idle v, (refl, refl))
]

-- On a valid queue with room for an event, or for a byte that the automaton's table gives no key,
-- `input_inject_byte` moves the automaton to the state and the digit that the table gives for the
-- byte, adds the key that the table gives behind the other events, or no event if it gives none,
-- and keeps the queue valid.
pub inject_byte_lem :
    (s : Input) (c : ℕ)
    → IsValid s
    → (key_of s.esc_state s.esc_discard c ≡ none) ⊎ (s.event_count < queue_size)
    → Queued s (key_of s.esc_state s.esc_discard c) (inject_byte s c)
      × Moved
          (next_state s.esc_state c)
          (next_discard s.esc_state s.esc_discard c)
          (inject_byte s c)
unfolding inject_byte
inject_byte_lem s c v h = inject_in_lem s.esc_state s c v h refl
