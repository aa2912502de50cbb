-- ===== src/Ipc/Trace.antt =====
-- Sequences of calls of kernel/ipc.c.
use kolibriarm.Base.{
  ℕ, ◌+◌, ◌^◌, ◌<◌, ◌≤◌, ◌≡◌, refl, ap, ◌∙◌, true, List, [], ◌∷◌, Option, some, Status, length,
  arith,
}
use kolibriarm.Ipc.{Message, Ipc, init, send, recv, max_messages}
use kolibriarm.Ipc.Mailbox
use kolibriarm.Ipc.Mailbox.{Mailbox}
use kolibriarm.Ipc.Inv.{IsValid, AllSixteen, init-IsValid}
use kolibriarm.Ipc.Refine.{contents, messages, send_refines, recv_refines}

-- A call: a send from a buffer, or a receive into one.
pub data Op : Type 0 where
  post : ℕ → ℕ → List ℕ → ℕ → Op
  fetch : ℕ → Message → Op

pub data Reply : Type 0 where
  sent : Status → Reply
  got : Option Message → Reply

-- The buffers are as long as the calls say.
abbrev pub AllFit : List Op → Type 0
AllFit [] = Unit
AllFit (post sender target bytes size ∷ ops) = (size ≤ length bytes) × AllFit ops
AllFit (fetch target buffer ∷ ops) = (length buffer.bytes ≡ 16) × AllFit ops

pub run : Ipc → List Op → List Reply
run s [] = []
run s (post sender target bytes size ∷ ops) =
    let (status, s') = send s sender target (some bytes) size in sent status ∷ run s' ops
run s (fetch target buffer ∷ ops) =
    let (out, s') = recv s target (some buffer) in got out ∷ run s' ops

unfoldable pub run_mailbox : Mailbox → List Op → List Reply
run_mailbox q [] = []
run_mailbox q (post sender target bytes size ∷ ops) =
    let (status, q') = Mailbox.send q sender target (some bytes) size in
    sent status ∷ run_mailbox q' ops
run_mailbox q (fetch target buffer ∷ ops) =
    let (out, q') = Mailbox.recv q target true in got out ∷ run_mailbox q' ops

next_sequence-send :
    (s : Ipc) (sender target : ℕ) (bytes : List ℕ) (size : ℕ)
    → (send s sender target (some bytes) size).1.next_sequence ≤ s.next_sequence + 1
unfolding send
next_sequence-send s sender target bytes size = ground arith

next_sequence-recv :
    (s : Ipc) (target : ℕ) (buffer : Message)
    → (recv s target (some buffer)).1.next_sequence ≡ s.next_sequence
unfolding recv
next_sequence-recv s target buffer = ground arith

run_from_refines :
    (ops : List Op) (s : Ipc)
    → IsValid s
    → s.next_sequence + length ops < 2 ^ 64
    → AllFit ops
    → run s ops ≡ run_mailbox (contents s) ops
unfolding run run_mailbox
run_from_refines [] s v room fit = refl
run_from_refines (post sender target bytes size ∷ ops) s v room fit =
    let (same, valid) = send_refines s sender target bytes size v (omega arith) fit.0 in
    rw (
      ← same,
      run_from_refines ops (send s sender target (some bytes) size).1 valid
          (omega (arith, next_sequence-send s sender target bytes size)) fit.1,
    )
run_from_refines (fetch target buffer ∷ ops) s v room fit =
    let (same, valid) = recv_refines s target buffer v fit.0 in
    rw (
      ← same,
      run_from_refines ops (recv s target (some buffer)).1 valid
          (omega (arith, next_sequence-recv s target buffer)) fit.1,
    )

-- After ipc_init on eight slots of sixteen bytes, fewer than 2 ^ 64 - 1 calls of ipc_send and
-- ipc_recv with buffers as long as the calls say return what a mailbox of at most eight messages
-- returns that delivers first in, first out for each target and pads payloads with zeros.
pub run_refines :
    (ops : List Op) (s : Ipc)
    → length s.slots ≡ max_messages
    → AllSixteen s.slots
    → 1 + length ops < 2 ^ 64
    → AllFit ops
    → run (init s) ops ≡ run_mailbox [] ops
run_refines ops s n a room fit =
    let (valid, empty) = init-IsValid s n a in
    run_from_refines ops (init s) valid (unfold init in room) fit
    ∙ ap (λ q. run_mailbox (messages q) ops) empty
