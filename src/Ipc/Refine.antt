-- ===== src/Ipc/Refine.antt =====
-- kernel/ipc.c behaves as the mailbox that kernel/ipc.h promises.
use native.Mathlib.Nat.{mod-eq_of_lt}
use kolibriarm.Base.{
  ℕ, suc, ◌+◌, ◌^◌, ◌<◌, ◌≤◌, ◌≡◌, refl, sym, ap, subst, ◌∙◌, true, false, ◌||◌, List, [], ◌∷◌,
  ◌++◌, none, some, ok, ltb, ◌==◌, get_or, set, length, length-set, leb, arith, Bool-cases,
  Option-cases, inl, inr,
}
use kolibriarm.Ipc.{
  Message, Slot, Ipc, copy_payload, clear_slot, find_free_slot, find_oldest_target_slot,
  oldest_from, no_slot, fill_slot, send, recv, max_message_size, max_messages,
}
use kolibriarm.Ipc.Order.{
  first_for, without, without-Avoids, Ordered-Avoids, first_for_above, Ordered,
}
use kolibriarm.Ipc.Oldest.{Found, slot_of, slot_of-oldest_from, oldest_from-Found}
use kolibriarm.Ipc.Pending.{
  pending, pending-set, length-pending, room-pending, pending-clear, pending-Ordered,
}
use kolibriarm.Ipc.Mailbox
use kolibriarm.Ipc.Mailbox.{Mailbox, padded, envelope, take_first}
use kolibriarm.Ipc.Payload.{
  IsPadded, copy_payload-eq-padded, copy_payload_again, envelope-IsPadded, clear_slot-IsPadded,
}
use kolibriarm.Ipc.Inv.{IsValid, Distinct-fill, Distinct-clear, AllPadded-set, AllPadded-at}

-- The messages that wait, in the order of their sequence numbers.
abbrev pub messages : List Slot → Mailbox
messages [] = []
messages (s ∷ q) = s.message ∷ messages q

abbrev pub contents : Ipc → Mailbox
contents s = messages (pending s.slots)

messages-append : (xs ys : List Slot) → messages (xs ++ ys) ≡ messages xs ++ messages ys
messages-append [] ys = refl
messages-append (x ∷ xs) ys = ap (λ q. x.message ∷ q) (messages-append xs ys)

length-messages : (xs : List Slot) → length (messages xs) ≡ length xs
length-messages [] = refl
length-messages (x ∷ xs) = ap suc (length-messages xs)

-- The mailbox takes out what the slots' order shows first.
take_first-messages :
    (t b : ℕ) (q : List Slot)
    → Ordered b q
    → take_first t (messages q) ≡ (elim (first_for t q) [
      | none ↦ none
      | some s ↦ some (s.message, messages (without s.sequence q))
    ])
unfolding take_first first_for without
take_first-messages t b [] o = refl
take_first-messages t b (x ∷ q) o = elim (Option-cases (first_for t q)) [
  | inl e ↦ ground (
    arith,
    e,
    take_first-messages t x.sequence q o.1,
    without-Avoids x.sequence q (Ordered-Avoids x.sequence x.sequence q (omega arith) o.1),
  )
  | inr (s, e) ↦ ground (
    arith,
    e,
    take_first-messages t x.sequence q o.1,
    without-Avoids x.sequence q (Ordered-Avoids x.sequence x.sequence q (omega arith) o.1),
    first_for_above t x.sequence q s o.1 e,
  )
]

fill_slot_message :
    (old : Slot) (sender target : ℕ) (bytes : List ℕ) (size next : ℕ)
    → length old.message.bytes ≡ 16
    → size ≤ 16
    → size ≤ length bytes
    → (fill_slot old sender target bytes size next).message ≡ envelope sender target bytes size
unfolding fill_slot
fill_slot_message old sender target bytes size next d h l =
    ap (λ b. record { sender_pid = sender; target_pid = target; size = size; bytes = b })
      (copy_payload-eq-padded old.message.bytes bytes size d h l)

-- The slots and the next number after a message has been stored in slot `i`.
abbrev stored : Ipc → ℕ → Slot → Ipc
stored s i new = record { slots = set s.slots i new; next_sequence = s.next_sequence + 1 }

module _ (s : Ipc) (v : IsValid s) (i : ℕ) (new : Slot) (free : find_free_slot s.slots ≡ some i)
    (n : new.sequence ≡ s.next_sequence) where
  stored-contents : new.used ≡ 1 → contents (stored s i new) ≡ contents s ++ (new.message ∷ [])
  stored-contents u =
      ap messages (pending-set s.next_sequence s.slots new i u n v.distinct free)
      ∙ messages-append (pending s.slots) (new ∷ [])

  stored-IsValid : IsPadded new.message → IsValid (stored s i new)
  stored-IsValid p = record {
    eight = length-set s.slots i new ∙ v.eight;
    distinct = Distinct-fill s.next_sequence s.slots i new n v.started v.distinct;
    padded_slots = AllPadded-set s.slots i new p v.padded_slots;
    started = omega arith;
  }

module _ (s : Ipc) (sender target : ℕ) (bytes : List ℕ) (size : ℕ) (v : IsValid s) where
  new_slot : ℕ → Slot
  new_slot i = fill_slot (get_or s.slots i no_slot) sender target bytes size s.next_sequence

  send_stores :
      (i : ℕ)
      → find_free_slot s.slots ≡ some i
      → size ≤ 16
      → size ≤ length bytes
      → (leb max_messages (length (contents s)) ≡ false)
        × (contents (stored s i (new_slot i))
            ≡ contents s ++ (envelope sender target bytes size ∷ []))
        × IsValid (stored s i (new_slot i))
  unfolding new_slot fill_slot
  send_stores i free h l = (
    ground (arith, length-messages (pending s.slots), room, v),
    stored-contents s v i _ free refl refl ∙ ap (λ m. contents s ++ (m ∷ [])) message,
    stored-IsValid s v i _ free refl
        (subst IsPadded (sym message) (envelope-IsPadded sender target bytes size h l)),
  )
    where
      room : (length (pending s.slots) < length s.slots) × (i < length s.slots)
      room = room-pending s.slots i free

      message :
          (fill_slot (get_or s.slots i no_slot) sender target bytes size s.next_sequence).message
          ≡ envelope sender target bytes size
      message =
          fill_slot_message (get_or s.slots i no_slot) sender target bytes size s.next_sequence
            (AllPadded-at s.slots i _ room.1 refl v.padded_slots).full h l

-- On valid slots, with sequence numbers left and a buffer of at least `size` bytes, ipc_send
-- returns what the mailbox returns, leaves the slots holding its messages, and keeps the
-- invariant.
pub send_refines :
    (s : Ipc) (sender target : ℕ) (bytes : List ℕ) (size : ℕ)
    → IsValid s
    → s.next_sequence + 1 < 2 ^ 64
    → size ≤ length bytes
    → let (status, s') = send s sender target (some bytes) size in
      ((status, contents s') ≡ Mailbox.send (contents s) sender target (some bytes) size)
      × IsValid s'
unfolding send Mailbox.send new_slot
send_refines s sender target bytes size v room l =
    elim (Bool-cases (sender == 0 || target == 0 || size == 0 || ltb max_message_size size)) [
      | inl bad ↦ rw bad (refl, v)
      | inr good ↦ rw good (elim (Option-cases (find_free_slot s.slots)) [
        | inl full ↦
            rw full
              (ground (arith, length-messages (pending s.slots), length-pending s.slots, v), v)
        | inr (i, free) ↦
            rw (free, mod-eq_of_lt room)
              (let (few, new, valid) =
                  send_stores s sender target bytes size v i free (ground arith) l in
                rw few (ap (λ q. (ok, q)) new, valid))
      ])
    ]

module _ (s : Ipc) (target : ℕ) (v : IsValid s) where
  -- What the mailbox takes out is what the loop over the slots finds.
  take_first-oldest :
      take_first target (contents s) ≡ (elim (slot_of (oldest_from target s.slots 0 none)) [
        | none ↦ none
        | some x ↦ some (x.message, messages (without x.sequence (pending s.slots)))
      ])
  take_first-oldest = rw (slot_of-oldest_from target s.next_sequence s.slots 0 none v.distinct) (
      take_first-messages target 0 (pending s.slots)
        (pending-Ordered s.next_sequence s.slots v.distinct))

  recv_clears :
      (buffer : Message) (i : ℕ) (slot : Slot)
      → length buffer.bytes ≡ 16
      → Found target s.slots 0 i slot
      → (copy_payload buffer.bytes slot.message.bytes slot.message.size ≡ slot.message.bytes)
        × (pending (set s.slots i (clear_slot slot)) ≡ without slot.sequence (pending s.slots))
        × IsValid (record s { slots = set s.slots i (clear_slot slot) })
  unfolding clear_slot
  recv_clears buffer i slot b f = (
    copy_payload_again buffer.bytes slot.message b kept,
    pending-clear s.next_sequence s.slots i slot (clear_slot slot) v.distinct refl
        (omega (arith, f)) there f.in_use,
    record {
      eight = length-set s.slots i (clear_slot slot) ∙ v.eight;
      distinct = Distinct-clear s.next_sequence s.slots i (clear_slot slot) refl v.distinct;
      padded_slots =
          AllPadded-set s.slots i (clear_slot slot) (clear_slot-IsPadded slot kept.full)
            v.padded_slots;
      started = v.started;
    },
  )
    where
      there : get_or s.slots i no_slot ≡ slot
      there = ap (λ k. get_or s.slots k no_slot) (omega arith) ∙ f.there

      kept : IsPadded slot.message
      kept = AllPadded-at s.slots i slot (omega (arith, f)) there v.padded_slots

-- On valid slots, ipc_recv into a buffer of sixteen bytes returns the message that the mailbox
-- takes out for the target, or fails as it does, leaves the slots holding the remaining messages,
-- and keeps the invariant.
pub recv_refines :
    (s : Ipc) (target : ℕ) (buffer : Message)
    → IsValid s
    → length buffer.bytes ≡ 16
    → let (out, s') = recv s target (some buffer) in
      ((out, contents s') ≡ Mailbox.recv (contents s) target true) × IsValid s'
unfolding recv Mailbox.recv find_oldest_target_slot
recv_refines s target buffer v b = elim (Bool-cases (target == 0)) [
  | inl bad ↦ rw bad (refl, v)
  | inr good ↦ rw good (elim (Option-cases (oldest_from target s.slots 0 none)) [
    | inl nobody ↦ rw nobody (rw (take_first-oldest s target v, nobody) refl, v)
    | inr ((i, slot), oldest) ↦
        let f : Found target s.slots 0 i slot =
          elim (oldest_from-Found target s.slots 0 none i slot oldest) [ inl c ↦ cc | inr f ↦ f ] in
        let (copied, gone, valid) = recv_clears s target v buffer i slot b f in
        rw oldest (rw (rw oldest at (take_first-oldest s target v), copied, gone) refl, valid)
  ])
]
