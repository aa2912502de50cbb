-- ===== src/Ipc/Tests.antt =====
-- Runs of kernel/ipc.c at concrete messages.
use kolibriarm.Base.{true, ◌≡◌, refl, List, [], ◌∷◌, some, replicate, arith, copy, fill}
use kolibriarm.Ipc.{
  Message, Slot, Ipc, init, send, recv, find_free_slot, find_oldest_target_slot, copy_payload,
  fill_slot, no_slot,
}
use kolibriarm.Ipc.Mailbox
use kolibriarm.Ipc.Inv.{IsValid, init-IsValid}
use kolibriarm.Ipc.Refine.{contents, send_refines, recv_refines}
use kolibriarm.Ipc.Trace.{Op, post, fetch, run, run_mailbox, run_refines}

-- The slots as the loader leaves them: static storage of zeros.
abbrev blank : Slot
blank = record no_slot { message = record no_slot.message { bytes = replicate 16 0 } }

abbrev boot : Ipc
boot = record { slots = replicate 8 blank; next_sequence = 0 }

abbrev buffer : Message
buffer = record { sender_pid = 9; target_pid = 9; size = 9; bytes = replicate 16 255 }

abbrev script : List Op
script =
    post 1 2 (10 ∷ 11 ∷ []) 2
    ∷ post 1 3 (20 ∷ []) 1
    ∷ post 4 2 (30 ∷ []) 1
    ∷ fetch 2 buffer
    ∷ fetch 2 buffer
    ∷ fetch 2 buffer
    ∷ []

first_reply :
    (recv
      (send (send (init boot) 1 2 (some (10 ∷ [])) 1).1 4 2 (some (30 ∷ [])) 1).1
      2
      (some buffer)).0
    ≡ some (record { sender_pid = 1; target_pid = 2; size = 1; bytes = 10 ∷ replicate 15 0 })
unfolding init send recv find_free_slot find_oldest_target_slot copy_payload fill_slot copy fill
first_reply = refl

boot-IsValid : IsValid (init boot)
boot-IsValid = (init-IsValid boot refl (omega arith)).0

run_refines_example : run (init boot) script ≡ run_mailbox [] script
run_refines_example = run_refines script boot refl (omega arith) (omega arith) (omega arith)

send_refines_example :
    let (status, s') = send (init boot) 1 2 (some (10 ∷ 11 ∷ [])) 2 in
    ((status, contents s') ≡ Mailbox.send (contents (init boot)) 1 2 (some (10 ∷ 11 ∷ [])) 2)
    × IsValid s'
unfolding init
send_refines_example =
    send_refines (init boot) 1 2 (10 ∷ 11 ∷ []) 2 boot-IsValid (omega arith) (omega arith)

recv_refines_example :
    let (out, s') = recv (init boot) 2 (some buffer) in
    ((out, contents s') ≡ Mailbox.recv (contents (init boot)) 2 true) × IsValid s'
recv_refines_example = recv_refines (init boot) 2 buffer boot-IsValid refl
