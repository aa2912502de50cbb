-- ===== src/Input.antt =====
-- drivers/input/input.c: the queue of input events, a ring of 64, and the automaton that makes keys of
-- escape sequences. The union of an event is a data type. `input_uart_poll` takes the byte that
-- `uart_getc_nonblock` returns, or `none` for a negative answer. An `event` pointer is never null.
pub mod Ring
pub mod Escape
pub mod Typing
mod Tests
use kolibriarm.Base.{
  ℕ, ◌+◌, ◌-◌, ◌%◌, Bool, true, false, ◌&&◌, List, Option, none, some, ltb, leb, ◌==◌,
  if◌then◌else◌, get_or, set, Status, ok, failed, u8, bit_and,
}

-- The enumerator and the member of the union that goes with it.
pub data Data : Type 0 where
  key_press key_release : ℕ → Data
  mouse_move mouse_button : ℕ → ℕ → Data

pub record Event : Type 0 where
  pub body : Data
  pub timestamp : ℕ

pub data EscState : Type 0 where
  idle got_esc got_bracket got_bracket_digit : EscState

pub record Input : Type 0 where
  pub event_queue : List Event
  pub event_head : ℕ
  pub event_tail : ℕ
  pub event_count : ℕ
  pub esc_state : EscState
  pub esc_discard : ℕ

abbrev pub queue_size : ℕ
queue_size = 64

abbrev pub zero_event : Event
zero_event = record { body = key_press 0; timestamp = 0 }

pub queue_init : Input → Input
queue_init s = record s { event_head = 0; event_tail = 0; event_count = 0 }

pub push : Input → Event → Status × Input
push s event = if leb queue_size s.event_count then (failed, s) else (
  ok,
  record s {
    event_queue = set s.event_queue s.event_tail event;
    event_tail = (s.event_tail + 1) % queue_size;
    event_count = s.event_count + 1;
  },
)

-- `*event`, or `none` for -1, here and in `peek`.
pub poll : Input → Option Event × Input
poll s = if s.event_count == 0 then (none, s) else (
  some (get_or s.event_queue s.event_head zero_event),
  record s { event_head = (s.event_head + 1) % queue_size; event_count = s.event_count - 1 },
)

pub peek : Input → Option Event
peek s = if s.event_count == 0 then none else some (get_or s.event_queue s.event_head zero_event)

abbrev char_of : Option Event → Option ℕ
char_of none = none
char_of (some event) = elim event.body [
  | key_press key ↦ some (bit_and key 0xff)
  | key_release key ↦ none
  | mouse_move dx dy ↦ none
  | mouse_button button pressed ↦ none
]

-- The character, or `none` for -1.
pub poll_char : Input → Option ℕ × Input
poll_char s = let (event, left) = poll s in (char_of event, left)

abbrev key_up : ℕ
key_up = 0x101

abbrev key_down : ℕ
key_down = 0x102

abbrev key_left : ℕ
key_left = 0x103

abbrev key_right : ℕ
key_right = 0x104

abbrev key_pgup : ℕ
key_pgup = 0x105

abbrev key_pgdn : ℕ
key_pgdn = 0x106

pub push_key_event : Input → ℕ → Input
push_key_event s key = (push s (record { body = key_press key; timestamp = 0 })).1

abbrev pub push_escape_key : Input → ℕ → Input
push_escape_key s direction =
    if direction == 65
    then push_key_event s key_up
    else if direction == 66
    then push_key_event s key_down
    else if direction == 67
    then push_key_event s key_right
    else if direction == 68
    then push_key_event s key_left
    else s

abbrev pub push_escape_tilde : Input → ℕ → Input
push_escape_tilde s digit =
    if digit == 53
    then push_key_event s key_pgup
    else if digit == 54
    then push_key_event s key_pgdn
    else s

abbrev to_state : Input → EscState → Input
to_state s state = record s { esc_state = state }

abbrev inject_idle : Input → ℕ → Input
inject_idle s c = if c == 0x1b then push_key_event (to_state s got_esc) c else push_key_event s c

abbrev inject_esc : Input → ℕ → Input
inject_esc s c =
    if c == 91
    then to_state s got_bracket
    else if c == 0x1b
    then push_key_event (to_state s got_esc) c
    else push_key_event (to_state s idle) c

abbrev inject_bracket : Input → ℕ → Input
inject_bracket s c =
    if leb 48 c && leb c 57
    then record s { esc_state = got_bracket_digit; esc_discard = u8 c }
    else push_escape_key (to_state s idle) (u8 c)

abbrev inject_digit : Input → ℕ → Input
inject_digit s c =
    if c == 126 then push_escape_tilde (to_state s idle) s.esc_discard else to_state s idle

abbrev inject_in : EscState → Input → ℕ → Input
inject_in idle s c = inject_idle s c
inject_in got_esc s c = inject_esc s c
inject_in got_bracket s c = inject_bracket s c
inject_in got_bracket_digit s c = inject_digit s c

-- A byte that is not negative; the answer is always 0.
pub inject_byte : Input → ℕ → Input
inject_byte s c = inject_in s.esc_state s c

pub uart_poll : Input → Option ℕ → Status × Input
uart_poll s none = (failed, s)
uart_poll s (some c) = (ok, inject_byte s c)
