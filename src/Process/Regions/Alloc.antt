-- ===== src/Process/Regions/Alloc.antt =====
-- `process_alloc_user_region` of kernel/process.c: fresh page-aligned ranges for mmap.
use kolibriarm.Base.{
  subst₂, ==→eq, ℕ, ◌+◌, ◌-◌, ◌*◌, ◌/◌, ◌^◌, ◌<◌, ◌≤◌, ◌≡◌, ◌⊎◌, refl, sym, ap, ◌∙◌, subst, ◌||◌,
  Option, none, some, ltb, ◌==◌, arith, inl, inr, Option-cases, Bool-cases, Status, ok, failed, u64,
  bit_and, complement64,
}
use kolibriarm.Bits.{bit_and-ones, bit_and-shl}
use kolibriarm.Process.{Process, user_mmap_limit}
use kolibriarm.Process.Regions.{
  user_region_end, add_user_region, alloc_user_region, align_up, region_align, finish_alloc,
}
use kolibriarm.Process.Regions.Inv.{IsValid, region, user_region_end-some, user_region_end-none}
use kolibriarm.Process.Regions.Add.{AddOutcome, Refused, added, refused, add_user_region_lem}

-- Rounding up to whole pages, and what a sum that wraps gives.
pub align_up_lem : (value : ℕ) → align_up value region_align ≡ u64 (value + 4095) / 4096 * 4096
unfolding align_up
align_up_lem value =
    ap (λ k. bit_and (u64 k) (complement64 4095)) (less_one value)
    ∙ omega (
      arith,
      bit_and-shl 12 (u64 (value + 4095)) (2 ^ 52 - 1),
      bit_and-ones 52 (u64 (value + 4095) / 4096),
    )
  where
    less_one : (v : ℕ) → v + 4096 - 1 ≡ v + 4095
    less_one v = omega arith

-- The least multiple of a page that is not below n.
abbrev pub page_up : ℕ → ℕ
page_up n = (n + 4095) / 4096 * 4096

-- Nothing was asked for, the limit is too near, or the regions have no place for the range.
abbrev pub NoRoom : Process → ℕ → Type 0
NoRoom p size =
    (size ≡ 0)
    ⊎ ((user_mmap_limit < page_up p.next_user_vaddr + page_up size)
        ⊎ Refused p (page_up p.next_user_vaddr) (page_up size))

-- A range of whole pages that starts at `next_user_vaddr`, rounded up, has been added, and the next one
-- will start behind it; or nothing has changed.
pub data AllocOutcome (p : Process) (size : ℕ) (r : Option ℕ × Process) : Type 0 where
  mapped :
      (addr pages : ℕ)
      → r.0 ≡ some addr
      → addr ≡ page_up p.next_user_vaddr
      → pages * 4096 ≡ page_up size
      → addr + pages * 4096 ≤ user_mmap_limit
      → r.1.next_user_vaddr ≡ addr + pages * 4096
      → r.1.user_region_count ≡ p.user_region_count + 1
      → region r.1 p.user_region_count
        ≡ record { start = addr; end = addr + pages * 4096; paddr = 0; flags = 0 }
      → ((i : ℕ) → i < p.user_region_count → region r.1 i ≡ region p i)
      → IsValid r.1
      → AllocOutcome p size r
  unchanged : r ≡ (none, p) → NoRoom p size → AllocOutcome p size r

-- A new `next_user_vaddr` touches no region.
moved-IsValid : {p : Process} (next : ℕ) → IsValid p → IsValid (record p { next_user_vaddr = next })
moved-IsValid next v = record {
  eight = v.eight;
  counted = v.counted;
  sized = v.sized;
  apart = v.apart;
}

finish_alloc_lem :
    (p : Process) (size start pages end : ℕ) (r : Status × Process)
    → start ≡ page_up p.next_user_vaddr
    → pages * 4096 ≡ page_up size
    → end ≡ start + pages * 4096
    → end ≤ user_mmap_limit
    → AddOutcome p start (pages * 4096) r
    → AllocOutcome p size (finish_alloc start end p r)
finish_alloc_lem p size start pages end (failed, q) a h e l (added s c new old next v) = cc
finish_alloc_lem p size start pages end (failed, q) a h e l (refused same why) =
    unchanged refl (inr (inr (subst₂ (Refused p) a h why)))
finish_alloc_lem p size start pages end (ok, q) a h e l (refused same why) = cc
finish_alloc_lem p size start pages end (ok, q) a h e l (added s c new old next v) =
    mapped start pages refl a h (omega arith) e c new old (moved-IsValid end v)

-- On a process with valid regions, for a size and a `next_user_vaddr` below 2 ^ 64,
-- `process_alloc_user_region` adds the range that starts at `next_user_vaddr` and has the size, both
-- rounded up to whole pages, returns its address, moves `next_user_vaddr` behind it and keeps the
-- regions valid; or it fails and changes nothing, and then the size is 0, the range ends above the
-- limit, or `process_add_user_region` has a reason to refuse it.
pub alloc_user_region_lem :
    (p : Process) (size : ℕ)
    → IsValid p
    → size < 2 ^ 64
    → p.next_user_vaddr < 2 ^ 64
    → AllocOutcome p size (alloc_user_region p size)
unfolding alloc_user_region
alloc_user_region_lem p size v w n =
    elim (Bool-cases (size == 0 || ltb (align_up size region_align) size)) [
      | inl bad ↦ rw bad (
          unchanged refl (elim (Bool-cases (size == 0)) [
            | inl z ↦ inl (==→eq size 0 z)
            | inr pos ↦ inr (inl (ground (arith, align_up_lem size)))
          ]))
      | inr good ↦
          rw good
            (elim (Option-cases (
              user_region_end (align_up p.next_user_vaddr region_align)
                (align_up size region_align))) [
                  | inl over ↦ rw over (
                      unchanged refl (
                        inr (
                          inl
                            (elim (user_region_end-none (align_up p.next_user_vaddr region_align)
                              (align_up size region_align) over) [
                                | inl z ↦ ground (arith, align_up_lem size)
                                | inr out ↦
                                    omega (arith, align_up_lem size, align_up_lem p.next_user_vaddr)
                              ]))))
                  | inr (end, e) ↦
                      rw e
                        (elim (Bool-cases (
                          ltb (align_up p.next_user_vaddr region_align) p.next_user_vaddr
                          || ltb user_mmap_limit end)) [
                            | inl off ↦ rw off (
                                unchanged refl (
                                  inr (
                                    inl (
                                      let (pos, sum, fits) =
                                        user_region_end-some
                                          (align_up p.next_user_vaddr region_align)
                                          (align_up size region_align) end
                                          (omega (arith, align_up_lem size)) e in
                                      ground (
                                        arith,
                                        align_up_lem size,
                                        align_up_lem p.next_user_vaddr,
                                      )))))
                            | inr on ↦
                                rw on (placed end e (ground arith) (ground arith) (ground arith))
                          ])
                ])
    ]
  where
    start : ℕ
    start = align_up p.next_user_vaddr region_align

    pages : ℕ
    pages = u64 (size + 4095) / 4096

    placed :
        (end : ℕ)
        → user_region_end start (align_up size region_align) ≡ some end
        → size ≤ align_up size region_align
        → p.next_user_vaddr ≤ start
        → end ≤ user_mmap_limit
        → AllocOutcome p size
            (finish_alloc start end p (add_user_region p start (align_up size region_align)))
    placed end e big up below =
        let whole : align_up size region_align ≡ pages * 4096 = align_up_lem size in
        let (pos, sum, fits) =
          user_region_end-some start (align_up size region_align) end (omega (arith, whole)) e in
        subst (λ k. AllocOutcome p size (finish_alloc start end p (add_user_region p start k)))
          (sym whole)
          (finish_alloc_lem p size start pages end (add_user_region p start (pages * 4096))
            (omega (arith, align_up_lem p.next_user_vaddr)) (omega (arith, whole))
            (omega (arith, whole)) below
            (add_user_region_lem p start (pages * 4096) v (omega arith)))
