-- ===== src/Ipc/Payload.antt =====
-- The payload loops of kernel/ipc.c: what a slot and a received message hold.
use kolibriarm.Base.{
  ℕ, ◌-◌, ◌<◌, ◌≤◌, ◌≡◌, sym, ◌∙◌, List, [], ◌∷◌, ltb, if◌then◌else◌, get_or, length, arith, take,
  copy, replicate, list_ext, length-copy, length-fill, get_or-copy, get_or-fill, get_or-take_zeros,
  length-append, length-take, length-replicate,
}
use kolibriarm.Ipc.{Message, Slot, copy_payload, zero_payload, clear_slot, max_message_size}
use kolibriarm.Ipc.Mailbox.{padded, envelope}

-- A stored payload fills its sixteen bytes, with zeros from `size` on.
pub record IsPadded (m : Message) : Type 0 where
  pub full : length m.bytes ≡ max_message_size
  pub fits : m.size ≤ max_message_size
  pub tail : (q : ℕ) → m.size ≤ q → q < max_message_size → get_or m.bytes q 0 ≡ 0

abbrev pub AllPadded : List Slot → Type 0
AllPadded [] = Unit
AllPadded (s ∷ slots) = IsPadded s.message × AllPadded slots

length-padded :
    (src : List ℕ) (size : ℕ) → size ≤ 16 → size ≤ length src → length (padded src size) ≡ 16
length-padded src size h l = omega (
  arith,
  length-append {0} (take size src) (replicate (16 - size) 0),
  length-take {0} size src,
  length-replicate {0} {A = ℕ} (16 - size) 0,
)

module _ (dest src : List ℕ) (size : ℕ) (d : length dest ≡ 16) (h : size ≤ 16) where
  length-copy_payload : length (copy_payload dest src size) ≡ 16
  unfolding copy_payload
  length-copy_payload = length-fill (16 - size) 0 _ size ∙ length-copy size src 0 dest 0 ∙ d

  get_or-copy_payload :
      (q : ℕ)
      → q < 16
      → get_or (copy_payload dest src size) q 0 ≡ (if ltb q size then get_or src q 0 else 0)
  unfolding copy_payload
  get_or-copy_payload q k = ground (
    arith,
    get_or-fill (16 - size) 0 (copy size src 0 dest 0) size q,
    get_or-copy size src 0 dest 0 q,
    length-copy size src 0 dest 0,
  )

  -- The two loops write the first `size` bytes and zeros behind them.
  pub copy_payload-eq-padded : size ≤ length src → copy_payload dest src size ≡ padded src size
  copy_payload-eq-padded l =
      list_ext _ _ (length-copy_payload ∙ sym (length-padded src size h l)) (λ q k.
        get_or-copy_payload q (omega (arith, length-copy_payload))
        ∙ sym (get_or-take_zeros size (16 - size) q src l))

pub copy_payload_again :
    (dest : List ℕ) (m : Message)
    → length dest ≡ 16
    → IsPadded m
    → copy_payload dest m.bytes m.size ≡ m.bytes
copy_payload_again dest m d p =
    list_ext _ _ (length-copy_payload dest m.bytes m.size d p.fits ∙ sym p.full) (λ q k. ground (
      arith,
      length-copy_payload dest m.bytes m.size d p.fits,
      get_or-copy_payload dest m.bytes m.size d p.fits q,
      p.tail q,
    ))

-- What a send stores.
pub envelope-IsPadded :
    (sender target : ℕ) (src : List ℕ) (size : ℕ)
    → size ≤ 16
    → size ≤ length src
    → IsPadded (envelope sender target src size)
envelope-IsPadded sender target src size h l = record {
  full = length-padded src size h l;
  fits = h;
  tail = λ q lo hi. get_or-take_zeros size (16 - size) q src l ∙ ground arith;
}

pub clear_slot-IsPadded : (s : Slot) → length s.message.bytes ≡ 16 → IsPadded (clear_slot s).message
unfolding clear_slot zero_payload
clear_slot-IsPadded s h = record {
  full = length-fill 16 0 s.message.bytes 0 ∙ h;
  fits = omega arith;
  tail = λ q lo hi. get_or-fill 16 0 s.message.bytes 0 q (omega arith) ∙ ground arith;
}
