-- ===== src/GuiEvents.antt =====
-- kernel/gui_events.c: the event queue of a window, a ring of 32 events. Only the fields of
-- `gui_window_t` that the queue uses are there; an `int32_t` is any value of its type and is only
-- copied, so that it stands as a number. The null checks have no counterpart.
pub mod Ring
mod Tests
use kolibriarm.Base.{
  ℕ, ◌+◌, ◌-◌, ◌%◌, Bool, ◌&&◌, List, Option, none, some, ltb, leb, ◌==◌, if◌then◌else◌, get_or,
  set, Status, ok, failed,
}

pub record Event : Type 0 where
  pub type : ℕ
  pub data1 : ℕ
  pub data2 : ℕ

pub record Window : Type 0 where
  pub events : List Event
  pub event_head : ℕ
  pub event_tail : ℕ
  pub event_count : ℕ
  pub used : ℕ

abbrev pub queue_size : ℕ
queue_size = 32

abbrev pub mouse_move : ℕ
mouse_move = 4

abbrev pub zero_event : Event
zero_event = record { type = 0; data1 = 0; data2 = 0 }

abbrev pub event_at : Window → ℕ → Event
event_at window i = get_or window.events i zero_event

-- The index of the event that was pushed last.
abbrev pub last : Window → ℕ
last window = if window.event_tail == 0 then queue_size - 1 else window.event_tail - 1

abbrev pub coalesces : Window → ℕ → Bool
coalesces window type =
    type == mouse_move
    && ltb 0 window.event_count
    && (event_at window (last window)).type == mouse_move

abbrev pub drop_oldest : Window → Window
drop_oldest window = record window {
  event_head = (window.event_head + 1) % queue_size;
  event_count = window.event_count - 1;
}

abbrev pub append : Window → ℕ → ℕ → ℕ → Window
append window type data1 data2 = record window {
  events =
      set window.events window.event_tail (record { type = type; data1 = data1; data2 = data2 });
  event_tail = (window.event_tail + 1) % queue_size;
  event_count = window.event_count + 1;
}

abbrev pub replace_last : Window → ℕ → ℕ → Window
replace_last window data1 data2 = record window {
  events =
      set window.events (last window)
        (record { type = (event_at window (last window)).type; data1 = data1; data2 = data2 });
}

pub push_event : Window → ℕ → ℕ → ℕ → Status × Window
push_event window type data1 data2 =
    if window.used == 0
    then (failed, window)
    else if coalesces window type
    then (ok, replace_last window data1 data2)
    else if leb queue_size window.event_count
    then if type == mouse_move
      then (ok, window)
      else (ok, append (drop_oldest window) type data1 data2)
    else (ok, append window type data1 data2)

-- `*out`, or `none` for -1.
pub pop_event : Window → Option Event × Window
pop_event window =
    if window.used == 0
    then (none, window)
    else if window.event_count == 0
    then (none, window)
    else (some (event_at window window.event_head), drop_oldest window)
