-- ===== src/GuiEvents/Tests.antt =====
-- The event queue of kernel/gui_events.c when it is full.
use kolibriarm.Base.{◌≡◌, refl, replicate, arith}
use kolibriarm.GuiEvents.{Event, Window, push_event, pop_event}
use kolibriarm.GuiEvents.Ring.{IsValid, PushOutcome, PopOutcome, push_event_lem, pop_event_lem}

abbrev click : Event
click = record { type = 3; data1 = 10; data2 = 20 }

abbrev full : Window
full = record {
  events = replicate 32 click;
  event_head = 31;
  event_tail = 31;
  event_count = 32;
  used = 1;
}

full-IsValid : IsValid full
full-IsValid = record { size = refl; head = omega arith; count = omega arith; tail = omega arith }

push_event_lem_example : PushOutcome full 1 65 0 (push_event full 1 65 0)
push_event_lem_example = push_event_lem full 1 65 0 full-IsValid

pop_event_lem_example : PopOutcome full (pop_event full)
pop_event_lem_example = pop_event_lem full full-IsValid

-- A mouse move after a mouse move takes its place.
moved_twice : (push_event (push_event full 4 1 1).1 4 2 2).1.event_count ≡ 32
unfolding push_event
moved_twice = refl
