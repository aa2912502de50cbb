-- ===== src/Ipc/Mailbox.antt =====
-- What kernel/ipc.h promises: at most eight messages, delivered first in, first out for each target,
-- with the bytes beyond `size` zero.
use kolibriarm.Base.{
  ℕ, ◌-◌, Bool, true, false, ◌||◌, List, [], ◌∷◌, ◌++◌, Option, none, some, Status, ok, failed, ltb,
  leb, ◌==◌, if◌then◌else◌, take, replicate, length,
}
use kolibriarm.Ipc.{Message, max_messages, max_message_size}

-- The messages that wait, oldest first.
abbrev pub Mailbox : Type 0
Mailbox = List Message

abbrev pub padded : List ℕ → ℕ → List ℕ
padded bytes size = take size bytes ++ replicate (max_message_size - size) 0

abbrev pub envelope : ℕ → ℕ → List ℕ → ℕ → Message
envelope sender target bytes size = record {
  sender_pid = sender;
  target_pid = target;
  size = size;
  bytes = padded bytes size;
}

unfoldable pub send : Mailbox → ℕ → ℕ → Option (List ℕ) → ℕ → Status × Mailbox
send q sender target none size = (failed, q)
send q sender target (some bytes) size =
    if sender == 0 || target == 0 || size == 0 || ltb max_message_size size
    then (failed, q)
    else if leb max_messages (length q)
    then (failed, q)
    else (ok, q ++ (envelope sender target bytes size ∷ []))

-- The first message for the target, and the others in their order.
unfoldable pub take_first : ℕ → Mailbox → Option (Message × Mailbox)
take_first t [] = none
take_first t (m ∷ q) =
    if m.target_pid == t
    then some (m, q)
    else elim (take_first t q) [ none ↦ none | some (n, rest) ↦ some (n, m ∷ rest) ]

unfoldable pub recv : Mailbox → ℕ → Bool → Option Message × Mailbox
recv q t false = (none, q)
recv q t true =
    if t == 0
    then (none, q)
    else elim (take_first t q) [ none ↦ (none, q) | some (m, rest) ↦ (some m, rest) ]
