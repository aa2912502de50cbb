-- ===== src/UserImage/Load.antt =====
-- The checks and the copy of `user_image_load_flat` of kernel/user_image.c.
use kolibriarm.Base.{
  ℕ, zero, suc, ◌+◌, ◌-◌, ◌^◌, ◌<◌, ◌≤◌, ◌≡◌, ◌≢◌, ◌⊎◌, refl, sym, ap, ◌∙◌, subst, true, false,
  ◌&&◌, ◌||◌, not, List, ltb, leb, ◌==◌, if◌then◌else◌, Status, ok, failed, u64, u64_max, arith,
  Bool-cases, inl, inr,
}
use kolibriarm.UserImage.{
  Bytes, store_byte, Image, Header, image_magic, image_header_size, max_entries, header_at,
  add_u64_checked, copy_bytes, load_copy, load_flat, rejects,
}

-- The two ranges of n bytes have no byte in common.
abbrev pub Disjoint : ℕ → ℕ → ℕ → Type 0
Disjoint n load source = (load + n ≤ source) ⊎ (source + n ≤ load)

-- The byte that address a holds after the copy.
abbrev pub copied : ℕ → ℕ → ℕ → Bytes → ℕ → ℕ
copied n load source m a = if leb load a && ltb a (load + n) then m (source + (a - load)) else m a

copy_bytes_lem :
    (n i load source : ℕ) (m : Bytes) (a : ℕ)
    → Disjoint (i + n) load source
    → copy_bytes n i load source m a
      ≡ (if leb (load + i) a && ltb a (load + i + n) then m (source + (a - load)) else m a)
unfolding copy_bytes
copy_bytes_lem zero i load source m a h = ground arith
copy_bytes_lem (suc n) i load source m a h =
    copy_bytes_lem n (i + 1) load source (store_byte m (load + i) (m (source + i))) a
      (elim h [ inl x ↦ inl (omega arith) | inr x ↦ inr (omega arith) ])
    ∙ elim (Bool-cases (a == load + i)) [
      | inl here ↦ let e : a - load ≡ i = ground arith in ground (arith, ap (λ x. m (source + x)) e)
      | inr there ↦ elim h [ inl x ↦ ground arith | inr x ↦ ground arith ]
    ]

copied_lem :
    (n load source : ℕ) (m : Bytes) (a : ℕ)
    → Disjoint n load source
    → copy_bytes n 0 load source m a ≡ copied n load source m a
copied_lem n load source m a d =
    copy_bytes_lem n 0 load source m a
      (elim d [ inl x ↦ inl (omega arith) | inr x ↦ inr (omega arith) ])
    ∙ ground arith

-- The image is well formed and fits: what `user_image_load_flat` asks of its arguments.
pub record Fits (header : Header)
    (load_base load_capacity source_base source_capacity entry_index : ℕ) : Type 0 where
  pub placed : (load_base ≢ 0) × (source_base ≢ 0)
  pub magic : header.magic ≡ image_magic
  pub header_size : header.header_size ≡ image_header_size
  pub entries : (entry_index < header.entry_count) × (header.entry_count ≤ max_entries)
  pub entry :
      (image_header_size ≤ header.entry_offsets entry_index)
      × (header.entry_offsets entry_index < header.image_size)
  pub whole : (header.image_size ≤ source_capacity) × (header.image_size ≤ load_capacity)
  pub no_wrap : source_base + header.entry_offsets entry_index < 2 ^ 64

-- The image has been copied and described, or nothing has changed.
pub data LoadOutcome (image : Image) (name : List ℕ)
    (load_base load_capacity source_base source_capacity entry_index : ℕ) (m : Bytes)
    (r : Status × Image × Bytes) : Type 0 where
  loaded :
      Fits (header_at source_base m) load_base load_capacity source_base source_capacity entry_index
      → r.0 ≡ ok
      → r.1 ≡ record {
        name = name;
        base = load_base;
        size = (header_at source_base m).image_size;
        entry_offset = (header_at source_base m).entry_offsets entry_index;
      }
      → (Disjoint (header_at source_base m).image_size load_base source_base
          → (a : ℕ) → r.2 a ≡ copied (header_at source_base m).image_size load_base source_base m a)
      → LoadOutcome image name load_base load_capacity source_base source_capacity entry_index m r
  rejected :
      ¬ Fits
        (header_at source_base m)
        load_base
        load_capacity
        source_base
        source_capacity
        entry_index
      → r ≡ (failed, image, m)
      → LoadOutcome image name load_base load_capacity source_base source_capacity entry_index m r

load_copy_lem :
    (image : Image) (name : List ℕ) (load_base load_capacity source_base size offset : ℕ)
    (m : Bytes)
    → (load_base ≢ 0) × (source_base ≢ 0)
    → offset < size
    → size ≤ load_capacity
    → load_copy image name load_base load_capacity source_base size (source_base + offset) m ≡ (
      ok,
      record { name = name; base = load_base; size = size; entry_offset = offset },
      copy_bytes size 0 load_base source_base m,
    )
unfolding load_copy
load_copy_lem image name load_base load_capacity source_base size offset m placed h k =
    let go : load_base == 0
          || load_capacity == 0
          || source_base == 0
          || size == 0
          || ltb load_capacity size
          || ltb (source_base + offset) source_base
          || leb size (source_base + offset - source_base)
        ≡ false =
      ground arith in
    let same : source_base + offset - source_base ≡ offset = omega arith in rw (go, same) refl

load_copy_refuses :
    (image : Image) (name : List ℕ) (load_base load_capacity source_base size entry : ℕ) (m : Bytes)
    → (load_base ≡ 0) ⊎ (load_capacity < size)
    → load_copy image name load_base load_capacity source_base size entry m ≡ (failed, image, m)
unfolding load_copy
load_copy_refuses image name load_base load_capacity source_base size entry m h =
    let stop : load_base == 0
          || load_capacity == 0
          || source_base == 0
          || size == 0
          || ltb load_capacity size
          || ltb entry source_base
          || leb size (entry - source_base)
        ≡ true =
      elim h [ inl x ↦ ground arith | inr x ↦ ground arith ] in
    rw stop refl

-- `user_image_load_flat` accepts an image exactly if its header has the magic number and the size of a
-- header, lists at most eight entries and the one asked for, has this entry behind the header and
-- inside the image, and gives the image a size that neither the source nor the place to load to
-- exceeds; neither address is null, and the entry's address does not wrap. It then describes the
-- image and copies its bytes, if the two ranges have none in common, and changes no other byte.
-- Otherwise it fails and changes nothing.
pub load_flat_lem :
    (image : Image) (name : List ℕ)
    (load_base load_capacity source_base source_capacity entry_index : ℕ) (m : Bytes)
    → LoadOutcome image name load_base load_capacity source_base source_capacity entry_index m
        (load_flat image name load_base load_capacity source_base source_capacity entry_index m)
unfolding load_flat add_u64_checked
load_flat_lem image name load_base load_capacity source_base source_capacity entry_index m =
    elim (Bool-cases (source_base == 0 || ltb source_capacity 4)) [
      | inl bad ↦ rw bad (rejected (λ f. ground (arith, f.placed, f.entry, f.whole)) refl)
      | inr good ↦
          rw good
            (elim (Bool-cases
              (not (h.magic == image_magic) || rejects h source_capacity entry_index)) [
                | inl bad ↦ rw bad (
                    rejected
                      (λ f. ground (arith, f.magic, f.header_size, f.entries, f.entry, f.whole))
                      refl)
                | inr fine ↦
                    rw fine
                      (elim (Bool-cases (ltb offset h.header_size || leb h.image_size offset)) [
                        | inl bad ↦
                            rw bad (rejected (λ f. ground (arith, f.header_size, f.entry)) refl)
                        | inr in_image ↦
                            rw in_image (elim (Bool-cases (ltb (u64_max - offset) source_base)) [
                              | inl over ↦
                                  rw over (rejected (λ f. ground (arith, f.no_wrap, f.placed)) refl)
                              | inr fits ↦
                                  rw fits
                                    (elim (Bool-cases
                                      (load_base == 0 || ltb load_capacity h.image_size)) [
                                        | inl bad ↦
                                            rejected (λ f. ground (arith, f.placed, f.whole))
                                              (load_copy_refuses image name load_base load_capacity
                                                source_base h.image_size _ m (ground arith))
                                        | inr room ↦
                                            let sum : u64 (source_base + offset)
                                                ≡ source_base + offset =
                                              ground arith in
                                            let run =
                                              load_copy_lem image name load_base load_capacity
                                                source_base h.image_size offset m (ground arith)
                                                (ground arith) (ground arith) in
                                            rw sum (
                                              subst
                                                (LoadOutcome image name load_base load_capacity
                                                  source_base source_capacity entry_index m)
                                                (sym run)
                                                (loaded (all_fit good fine in_image fits room) refl
                                                  refl
                                                  (λ d a.
                                                    copied_lem h.image_size load_base source_base m
                                                      a d)))
                                      ])
                            ])
                      ])
              ])
    ]
  where
    h : Header
    h = header_at source_base m

    offset : ℕ
    offset = (header_at source_base m).entry_offsets entry_index

    all_fit :
        source_base == 0 || ltb source_capacity 4 ≡ false
        → not (h.magic == image_magic) || rejects h source_capacity entry_index ≡ false
        → ltb offset h.header_size || leb h.image_size offset ≡ false
        → ltb (u64_max - offset) source_base ≡ false
        → load_base == 0 || ltb load_capacity h.image_size ≡ false
        → Fits h load_base load_capacity source_base source_capacity entry_index
    all_fit a b c d e = record {
      placed = ground arith;
      magic = ground arith;
      header_size = ground arith;
      entries = ground arith;
      entry = ground arith;
      whole = ground arith;
      no_wrap = ground arith;
    }
