-- ===== src/Vmm/Range.antt =====
-- `vmm_map_range` of kernel/mm/vmm.c.
use kolibriarm.Base.{
  ℕ, zero, suc, ◌+◌, ◌-◌, ◌*◌, ◌/◌, ◌%◌, ◌^◌, ◌<◌, ◌≤◌, ◌≡◌, ◌≢◌, refl, sym, ap, ◌∙◌, subst, true,
  false, ◌||◌, some, ◌==◌, ltb, leb, arith, Bool-cases, inl, inr, Status, ok, failed, u64, bit_and,
  complement64, sub64, u64_max,
}
use kolibriarm.Bits.{bit_and-ones, bit_and-shl}
use kolibriarm.Pmm.{page_size}
use kolibriarm.Vmm.{
  Vm, map_page, map_from, map_range, page_align_down, page_align_up, page_span, undo_from,
}
use kolibriarm.Vmm.Tree.{Tree, root_pos}
use kolibriarm.Vmm.Map.{map_page_lem}
use kolibriarm.Vmm.Rounds.{Filled, RoundsOutcome, filled, rounds_step}

map_from_lem :
    (j k n first frame flags pgd : ℕ) (s0 s : Vm)
    → first + n ≤ 2 ^ 36
    → frame + n ≤ 2 ^ 52
    → k + j ≡ n
    → Filled first k frame flags pgd s0 s
    → RoundsOutcome first n frame flags pgd s0
        (map_from j (k * page_size) pgd (first * page_size) (frame * page_size) flags s)
unfolding map_from
map_from_lem zero k n first frame flags pgd s0 s span frames h f =
    filled refl (subst (λ x. Filled first x frame flags pgd s0 s) (omega arith) f)
map_from_lem (suc j) k n first frame flags pgd s0 s span frames h f =
    let va : (first + k) * page_size ≡ u64 (first * page_size + k * page_size) = omega arith in
    let pa : (frame + k) * page_size ≡ u64 (frame * page_size + k * page_size) = omega arith in
    let off : (k + 1) * page_size ≡ k * page_size + page_size = omega arith in
    let back : k ≡ k * page_size / page_size = omega arith in
    subst
      (λ (x : ℕ × ℕ × ℕ × ℕ).
        RoundsOutcome first n frame flags pgd s0
          (elim (map_page pgd x.0 x.1 flags s).0 as (λ y. Status × Vm) [
            | ok ↦
                map_from j x.2 pgd (first * page_size) (frame * page_size) flags
                  (map_page pgd x.0 x.1 flags s).1
            | failed ↦
                (failed, undo_from x.3 0 pgd (first * page_size) (map_page pgd x.0 x.1 flags s).1)
          ]))
      (λ i. (va i, pa i, off i, back i))
      (rounds_step first n frame flags pgd s0 span k j s _ h f
        (map_page_lem pgd ((first + k) * page_size) ((frame + k) * page_size) flags s f.tree)
        (λ u g. map_from_lem j (k + 1) n first frame flags pgd s0 u span frames (omega arith) g))

pub align_down_lem : (a : ℕ) → a < 2 ^ 64 → page_align_down a ≡ a / 4096 * 4096
align_down_lem a h = bit_and-shl 12 a (2 ^ 52 - 1) ∙ omega (arith, bit_and-ones 52 (a / 4096))

pub align_up_lem : (a : ℕ) → a + 4095 < 2 ^ 64 → page_align_up a ≡ (a + 4095) / 4096 * 4096
align_up_lem a h =
    let sum : u64 (a + 4096 - 1) ≡ a + 4095 = omega arith in
    ap (λ x. bit_and x (complement64 (page_size - 1))) sum ∙ align_down_lem (a + 4095) h

-- How many pages hold `size` bytes from the address on.
abbrev pub page_count : ℕ → ℕ → ℕ
page_count address size = (address % 4096 + size + 4095) / 4096

pub page_span_lem :
    (offset size : ℕ)
    → 0 < size
    → offset < page_size
    → offset + size + 4095 < 2 ^ 64
    → page_span offset size ≡ some ((offset + size + 4095) / 4096 * 4096)
unfolding page_span
page_span_lem offset size h k l =
    let end : u64 (offset + size) ≡ offset + size = omega arith in
    let up : page_align_up (u64 (offset + size)) ≡ (offset + size + 4095) / 4096 * 4096 =
      ap page_align_up end ∙ align_up_lem (offset + size) l in
    let a : (size == 0 || leb page_size offset) ≡ false = ground arith in
    let b : ltb (u64_max - offset) size ≡ false = ground arith in
    let c : ltb (u64_max - (page_size - 1)) (u64 (offset + size)) ≡ false = ground arith in
    rw (a, b, c)
      (elim (Bool-cases (bit_and (u64 (offset + size)) (page_size - 1) == 0)) [
        | inl z ↦ rw z (ap some up)
        | inr z ↦ rw z (ap some up)
      ])

-- The rounds of `vmm_map_range` that its guards let through.
spanned :
    (pgd vaddr paddr size flags : ℕ) (s : Vm)
    → pgd ≢ 0
    → 0 < size
    → vaddr % page_size ≡ paddr % page_size
    → vaddr / page_size + page_count vaddr size ≤ 2 ^ 36
    → paddr / page_size + page_count vaddr size < 2 ^ 52
    → map_range pgd vaddr paddr size flags s
      ≡ map_from
          (page_count vaddr size)
          0
          pgd
          (vaddr / page_size * page_size)
          (paddr / page_size * page_size)
          flags
          s
unfolding map_range
spanned pgd vaddr paddr size flags s nz pos same span frames =
    let root : pgd == 0 ≡ false = ground arith in
    let offsets : bit_and vaddr (page_size - 1) == bit_and paddr (page_size - 1) ≡ true =
      ap (λ (x : ℕ × ℕ). x.0 == x.1) (λ i. (bit_and-ones 12 vaddr i, bit_and-ones 12 paddr i))
      ∙ ground arith in
    let some_size : size == 0 ≡ false = ground arith in
    let low : page_align_down vaddr ≡ vaddr / page_size * page_size =
      align_down_lem vaddr (omega arith) in
    let frame : page_align_down paddr ≡ paddr / page_size * page_size =
      align_down_lem paddr (omega arith) in
    let offset : sub64 vaddr (vaddr / page_size * page_size) ≡ vaddr % page_size = omega arith in
    let end : page_span (vaddr % page_size) size ≡ some (page_count vaddr size * page_size) =
      page_span_lem (vaddr % page_size) size pos (omega arith) (omega arith) in
    let fits : ltb (u64_max - page_count vaddr size * page_size) (vaddr / page_size * page_size)
        ≡ false =
      ground arith in
    let fits_too : ltb (u64_max - page_count vaddr size * page_size) (paddr / page_size * page_size)
        ≡ false =
      ground arith in
    let rounds : page_count vaddr size * page_size / page_size ≡ page_count vaddr size =
      omega arith in
    rw (root, offsets, some_size, low, frame, offset, end, fits, fits_too, rounds) refl

-- On a tree of tables whose pages the allocator manages, for a span of at least a byte that lies in the
-- lower 2^48 addresses and whose frames end below 2^64, with both addresses at the same offset of their
-- pages, `vmm_map_range` is all or nothing: it gives every page of the span the descriptor of its frame
-- and leaves every other page's mapping as it was, each page having been free; or it fails, every page
-- of the address space is mapped as before, and then a page of the span was mapped or no page of the
-- allocator is free. Either way the tree stays valid.
pub map_range_lem :
    (pgd vaddr paddr size flags : ℕ) (s : Vm)
    → Tree pgd s
    → 0 < size
    → vaddr % page_size ≡ paddr % page_size
    → vaddr / page_size + page_count vaddr size ≤ 2 ^ 36
    → paddr / page_size + page_count vaddr size < 2 ^ 52
    → RoundsOutcome
        (vaddr / page_size)
        (page_count vaddr size)
        (paddr / page_size)
        flags
        pgd
        s
        (map_range pgd vaddr paddr size flags s)
map_range_lem pgd vaddr paddr size flags s tree pos same span frames =
    let start : Filled (vaddr / page_size) 0 (paddr / page_size) flags pgd s s = record {
      tree = tree;
      view = λ w. ground arith;
      vacant = λ w h. absurd (ground arith);
    } in
    subst
      (RoundsOutcome (vaddr / page_size) (page_count vaddr size) (paddr / page_size) flags pgd s)
      (sym (spanned pgd vaddr paddr size flags s (root_pos pgd s tree) pos same span frames))
      (map_from_lem (page_count vaddr size) 0 (page_count vaddr size) (vaddr / page_size)
        (paddr / page_size) flags pgd s s span (omega arith) (omega arith) start)
