-- ===== src/Ipc.antt =====
-- kernel/ipc.c: the in-kernel message queue. A null pointer is `none`; a function that writes the
-- slots returns them anew.
pub mod Order
pub mod Pending
pub mod Oldest
pub mod Mailbox
pub mod Payload
pub mod Inv
pub mod Refine
pub mod Trace
mod Tests
use kolibriarm.Base.{
  ℕ, zero, suc, ◌+◌, ◌-◌, ◌≤◌, Bool, true, false, ◌||◌, not, List, [], ◌∷◌, Option, none, some,
  Status, ok, failed, ltb, ◌==◌, if◌then◌else◌, get_or, set, replicate, copy, fill, u64,
}

pub record Message : Type 0 where
  pub sender_pid : ℕ
  pub target_pid : ℕ
  pub size : ℕ
  pub bytes : List ℕ  -- data

pub record Slot : Type 0 where
  pub message : Message
  pub sequence : ℕ
  pub used : ℕ

-- g_ipc_slots and g_ipc_next_sequence
pub record Ipc : Type 0 where
  pub slots : List Slot
  pub next_sequence : ℕ

abbrev pub max_messages : ℕ
max_messages = 8

abbrev pub max_message_size : ℕ
max_message_size = 16

pub copy_payload : List ℕ → List ℕ → ℕ → List ℕ
copy_payload dest src size = fill (max_message_size - size) 0 (copy size src 0 dest 0) size

pub zero_payload : List ℕ → List ℕ
zero_payload dest = fill max_message_size 0 dest 0

pub clear_slot : Slot → Slot
unfolding zero_payload
clear_slot slot = record {
  message = record {
    sender_pid = 0;
    target_pid = 0;
    size = 0;
    bytes = zero_payload slot.message.bytes;
  };
  sequence = 0;
  used = 0;
}

-- The index of the first slot that is not used.
pub find_free_slot : List Slot → Option ℕ
find_free_slot [] = none
find_free_slot (slot ∷ slots) =
    if slot.used == 0
    then some 0
    else elim (find_free_slot slots) [ none ↦ none | some i ↦ some (suc i) ]

-- The `oldest` of the loop, as an index and the slot there.
abbrev pub Oldest : Type 0
Oldest = Option (ℕ × Slot)

pub older : ℕ → Slot → Oldest → Oldest
older i slot none = some (i, slot)
older i slot (some (j, oldest)) =
    if ltb slot.sequence oldest.sequence then some (i, slot) else some (j, oldest)

pub oldest_from : ℕ → List Slot → ℕ → Oldest → Oldest
oldest_from target_pid [] i oldest = oldest
oldest_from target_pid (slot ∷ slots) i oldest = oldest_from target_pid slots (i + 1) (
    if slot.used == 0 || not (slot.message.target_pid == target_pid)
    then oldest
    else older i slot oldest)

pub find_oldest_target_slot : ℕ → List Slot → Oldest
unfolding oldest_from older
find_oldest_target_slot target_pid slots = oldest_from target_pid slots 0 none

clear_all : List Slot → List Slot
unfolding clear_slot
clear_all [] = []
clear_all (slot ∷ slots) = clear_slot slot ∷ clear_all slots

pub init : Ipc → Ipc
unfolding clear_all
init s = record { slots = clear_all s.slots; next_sequence = 1 }

-- A slot that stands for none, for an index that is out of range.
abbrev pub no_slot : Slot
no_slot = record {
  message = record { sender_pid = 0; target_pid = 0; size = 0; bytes = [] };
  sequence = 0;
  used = 0;
}

-- The slot that `send` fills, over what it held.
pub fill_slot : Slot → ℕ → ℕ → List ℕ → ℕ → ℕ → Slot
fill_slot slot sender_pid target_pid bytes size sequence = record {
  message = record {
    sender_pid = sender_pid;
    target_pid = target_pid;
    size = size;
    bytes = copy_payload slot.message.bytes bytes size;
  };
  sequence = sequence;
  used = 1;
}

send_to : Ipc → ℕ → ℕ → List ℕ → ℕ → Option ℕ → Status × Ipc
send_to s sender_pid target_pid bytes size none = (failed, s)
send_to s sender_pid target_pid bytes size (some i) = (
  ok,
  record {
    slots =
        set s.slots i
          (fill_slot (get_or s.slots i no_slot) sender_pid target_pid bytes size s.next_sequence);
    next_sequence = u64 (s.next_sequence + 1);
  },
)

pub send : Ipc → ℕ → ℕ → Option (List ℕ) → ℕ → Status × Ipc
unfolding send_to
send s sender_pid target_pid none size = (failed, s)
send s sender_pid target_pid (some bytes) size =
    if sender_pid == 0 || target_pid == 0 || size == 0 || ltb max_message_size size
    then (failed, s)
    else send_to s sender_pid target_pid bytes size (find_free_slot s.slots)

recv_from : Ipc → Message → Oldest → Option Message × Ipc
recv_from s message none = (none, s)
recv_from s message (some (i, slot)) = (
  some (record {
    sender_pid = slot.message.sender_pid;
    target_pid = slot.message.target_pid;
    size = slot.message.size;
    bytes = copy_payload message.bytes slot.message.bytes slot.message.size;
  }),
  record s { slots = set s.slots i (clear_slot slot) },
)

-- The second argument is the caller's struct that `message` points at. The result is what has been
-- written there, with 0, or `none` with -1.
pub recv : Ipc → ℕ → Option Message → Option Message × Ipc
unfolding recv_from
recv s target_pid none = (none, s)
recv s target_pid (some message) =
    if target_pid == 0
    then (none, s)
    else recv_from s message (find_oldest_target_slot target_pid s.slots)
