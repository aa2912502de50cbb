-- ===== src/Pmm/Reserve.antt =====
-- `pmm_reserve_range` of kernel/mm/pmm.c: which pages a byte range covers.
use kolibriarm.Base.{
  ℕ, ◌+◌, ◌-◌, ◌*◌, ◌/◌, ◌^◌, ◌<◌, ◌≤◌, ◌≡◌, refl, ap, ◌∙◌, Bool, false, ltb, leb, ◌==◌, ◌&&◌, ◌||◌,
  if◌then◌else◌, arith, Bool-cases, inl, inr, not,
}
use kolibriarm.Bits.{bit_and-ones, bit_and-shl}
use kolibriarm.Pmm.{
  Pmm, page_size, align_down, align_up, align_up_saturated, add_saturated, managed_end, first_page,
  end_page, reserve_range, use_range,
}
use kolibriarm.Pmm.Pages.{taken}
use kolibriarm.Pmm.Inv.{IsValid}
use kolibriarm.Pmm.Ranges.{inside, use_range-Marks}

-- `value & ~(PAGE_SIZE - 1)`
pub align_down_lem : (value : ℕ) → value < 2 ^ 64 → align_down value ≡ value / page_size * page_size
unfolding align_down
align_down_lem value h =
    omega (arith, bit_and-shl 12 value (2 ^ 52 - 1), bit_and-ones 52 (value / 4096))

-- Below the last page of the address space, rounding up is to the next multiple.
pub align_up_saturated_lem :
    (value : ℕ)
    → value + page_size ≤ 2 ^ 64
    → align_up_saturated value ≡ (value + page_size - 1) / page_size * page_size
unfolding align_up_saturated align_up
align_up_saturated_lem value h = ground (
  arith,
  bit_and-ones 12 value,
  bit_and-shl 12 (value + 4095) (2 ^ 52 - 1),
  bit_and-ones 52 ((value + 4095) / 4096),
)

managed_end_lem : (s : Pmm) → IsValid s → managed_end s ≡ s.mem_base + s.total_pages * page_size
unfolding managed_end
managed_end_lem s v = ground arith

-- The page and the byte range have a byte in common.
abbrev pub covers : Pmm → ℕ → ℕ → ℕ → Bool
covers s start size q =
    not (size == 0)
    && ltb start (s.mem_base + (q + 1) * page_size)
    && ltb (s.mem_base + q * page_size) (start + size)

-- `r` is `s` with the managed pages that the range covers marked used, and no other change.
pub record Reserved (s : Pmm) (start size : ℕ) (r : Pmm) : Type 0 where
  pub valid : IsValid r
  pub bits :
      (q : ℕ)
      → q < s.total_pages
      → taken r.bitmap q ≡ (if covers s start size q then 1 else taken s.bitmap q)
  pub base : r.mem_base ≡ s.mem_base
  pub total : r.total_pages ≡ s.total_pages

module _ (s : Pmm) (v : IsValid s) where
  first_page_lem :
      (start : ℕ)
      → start < 2 ^ 64
      → first_page s start ≡ (if ltb start s.mem_base then 0 else (start - s.mem_base) / page_size)
  unfolding first_page
  first_page_lem start h = ground (arith, align_down_lem start h)

  end_page_lem :
      (end : ℕ)
      → s.mem_base < end
      → end_page s end ≡ (
          if leb (s.mem_base + s.total_pages * page_size) end
          then s.total_pages
          else (end - s.mem_base + page_size - 1) / page_size)
  unfolding end_page
  end_page_lem end h = ground (arith, managed_end_lem s v, align_up_saturated_lem end)

  -- The pages that the loop marks are those that the range covers.
  marked-covers :
      (start size q : ℕ)
      → start < 2 ^ 64
      → size < 2 ^ 64
      → 0 < size
      → s.mem_base < add_saturated start size
      → start < s.mem_base + s.total_pages * page_size
      → q < s.total_pages
      → inside (first_page s start) (end_page s (add_saturated start size) - first_page s start) q
        ≡ covers s start size q
  unfolding add_saturated
  marked-covers start size q hs hz pos above below hq =
      ground (arith, first_page_lem start hs, end_page_lem (add_saturated start size) above)

  of_Marks :
      (start size : ℕ)
      → start < 2 ^ 64
      → size < 2 ^ 64
      → 0 < size
      → s.mem_base < add_saturated start size
      → start < s.mem_base + s.total_pages * page_size
      → Reserved s start size (
          use_range
            (end_page s (add_saturated start size) - first_page s start)
            (first_page s start)
            s)
  of_Marks start size hs hz pos above below =
      let first = first_page s start in
      let marks =
        use_range-Marks (end_page s (add_saturated start size) - first) first s v (
          ground (arith, first_page_lem start hs, end_page_lem (add_saturated start size) above)) in
      record {
        valid = marks.valid;
        bits = λ q h.
            marks.bits q
            ∙ ap (λ (b : Bool). if b then 1 else taken s.bitmap q)
                (marked-covers start size q hs hz pos above below h);
        base = marks.base;
        total = marks.total;
      }

  unreserved :
      (start size : ℕ)
      → ((q : ℕ) → q < s.total_pages → covers s start size q ≡ false)
      → Reserved s start size s
  unreserved start size none = record {
    valid = v;
    bits = λ q h. rw (none q h);
    base = refl;
    total = refl;
  }

  -- On a valid allocator pmm_reserve_range, for a start and a size below 2 ^ 64, marks used
  -- exactly the managed pages that have a byte in common with the range, leaves the other managed
  -- pages as they were, and keeps the invariant, the base and the number of pages.
  pub reserve_range_lem :
      (start size : ℕ)
      → start < 2 ^ 64
      → size < 2 ^ 64
      → Reserved s start size (reserve_range s start size)
  unfolding reserve_range
  reserve_range_lem start size hs hz = elim (Bool-cases (size == 0 || s.total_pages == 0)) [
    | inl nothing ↦ rw nothing (unreserved start size (λ q h. ground arith))
    | inr some ↦
        rw some
          (elim (Bool-cases
            (leb (add_saturated start size) s.mem_base || leb (managed_end s) start)) [
              | inl apart ↦ rw apart (
                  unreserved start size
                    (λ q h. unfold add_saturated in ground (arith, managed_end_lem s v)))
              | inr near ↦ rw near (
                  of_Marks start size hs hz (ground arith) (ground arith)
                    (ground (arith, managed_end_lem s v)))
            ])
  ]
