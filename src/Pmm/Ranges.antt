-- ===== src/Pmm/Ranges.antt =====
-- The marking loops of kernel/mm/pmm.c, and `pmm_init`.
use kolibriarm.Base.{
  ℕ, zero, suc, ◌+◌, ◌*◌, ◌/◌, ◌%◌, ◌^◌, ◌<◌, ◌≤◌, ◌≡◌, refl, ap, sym, ◌∙◌, Bool, List, ltb, leb,
  ◌==◌, ◌&&◌, if◌then◌else◌, arith, length-replicate, get_or-replicate, replicate, u64_max, min,
}
use kolibriarm.Bits.{bit-complement, bit-zero}
use kolibriarm.Pmm.{
  Pmm, max_pages, page_size, bitmap_words, set_used, set_free, use_range, free_range, init,
}
use kolibriarm.Pmm.Pages.{taken}
use kolibriarm.Pmm.Inv.{
  IsValid, free_below, taken-used, fixed-used, free_pages-used, set_used-IsValid, taken-freed,
  fixed-freed, set_free-IsValid,
}

-- The page is one of the `n` from `first` on.
abbrev pub inside : ℕ → ℕ → ℕ → Bool
inside first n q = leb first q && ltb q (first + n)

-- `r` is `s` with the bits of `n` pages from `first` on made `b`, and all other pages as they were.
pub record Marks (b first n : ℕ) (s r : Pmm) : Type 0 where
  pub valid : IsValid r
  pub bits : (q : ℕ) → taken r.bitmap q ≡ (if inside first n q then b else taken s.bitmap q)
  pub base : r.mem_base ≡ s.mem_base
  pub total : r.total_pages ≡ s.total_pages

inside-step :
    (b first n q t : ℕ)
    → (if inside (first + 1) n q then b else if first == q then b else t)
      ≡ (if inside first (suc n) q then b else t)
inside-step b first n q t = ground arith

pub use_range-Marks :
    (n first : ℕ) (s : Pmm)
    → IsValid s
    → first + n ≤ s.total_pages
    → Marks 1 first n s (use_range n first s)
unfolding use_range
use_range-Marks zero first s v h = record {
  valid = v;
  bits = λ q. ground arith;
  base = refl;
  total = refl;
}
use_range-Marks (suc n) first s v h =
    let fixed = fixed-used first v (omega arith) in
    let rest =
      use_range-Marks n (first + 1) (set_used s first) (set_used-IsValid first v (omega arith))
        (omega (arith, fixed.1)) in
    record {
      valid = rest.valid;
      bits = λ q.
          rest.bits q
          ∙ ap (λ t. if inside (first + 1) n q then 1 else t) (taken-used first v (omega arith) q)
          ∙ inside-step 1 first n q (taken s.bitmap q);
      base = rest.base ∙ fixed.0;
      total = rest.total ∙ fixed.1;
    }

pub free_range-Marks :
    (n first : ℕ) (s : Pmm)
    → IsValid s
    → first + n ≤ s.total_pages
    → Marks 0 first n s (free_range n first s)
unfolding free_range
free_range-Marks zero first s v h = record {
  valid = v;
  bits = λ q. ground arith;
  base = refl;
  total = refl;
}
free_range-Marks (suc n) first s v h =
    let fixed = fixed-freed first v (omega arith) in
    let rest =
      free_range-Marks n (first + 1) (set_free s first) (set_free-IsValid first v (omega arith))
        (omega (arith, fixed.1)) in
    record {
      valid = rest.valid;
      bits = λ q.
          rest.bits q
          ∙ ap (λ t. if inside (first + 1) n q then 0 else t) (taken-freed first v (omega arith) q)
          ∙ inside-step 0 first n q (taken s.bitmap q);
      base = rest.base ∙ fixed.0;
      total = rest.total ∙ fixed.1;
    }

-- Marking `n` pages that were all free lowers the count of free pages by `n`.
pub free_pages-use_range :
    (n first : ℕ) (s : Pmm)
    → IsValid s
    → first + n ≤ s.total_pages
    → ((q : ℕ) → first ≤ q → q < first + n → taken s.bitmap q ≡ 0)
    → (use_range n first s).free_pages + n ≡ s.free_pages
unfolding use_range
free_pages-use_range zero first s v h all = omega arith
free_pages-use_range (suc n) first s v h all = omega (
  arith,
  free_pages-used first v (omega arith),
  all first (omega arith) (omega arith),
  free_pages-use_range n (first + 1) (set_used s first) (set_used-IsValid first v (omega arith))
      (omega (arith, fixed-used first v (omega arith)))
      (λ q lo hi. taken-used first v (omega arith) q ∙ ground (arith, all q)),
)

pub free_below-all_used :
    (bm : List ℕ) (n : ℕ) → ((q : ℕ) → q < n → taken bm q ≡ 1) → free_below bm n ≡ 0
free_below-all_used bm zero all = refl
free_below-all_used bm (suc n) all =
    omega (arith, all n (omega arith), free_below-all_used bm n (λ q h. all q (omega arith)))

free_below-all_free :
    (bm : List ℕ) (n : ℕ) → ((q : ℕ) → q < n → taken bm q ≡ 0) → free_below bm n ≡ n
free_below-all_free bm zero all = refl
free_below-all_free bm (suc n) all =
    omega (arith, all n (omega arith), free_below-all_free bm n (λ q h. all q (omega arith)))

-- All pages of a bitmap of ones are used.
taken-ones : (w q : ℕ) → q / 64 < w → taken (replicate w u64_max) q ≡ 1
taken-ones w q h =
    rw (get_or-replicate w (q / 64) u64_max 0 h)
      (omega (arith, bit-complement 64 (q % 64) 0 (omega arith) (omega arith), bit-zero (q % 64)))

-- The state in which `pmm_init` starts to free the pages.
all_used-IsValid :
    (w base total : ℕ)
    → w ≡ 512
    → total ≤ max_pages
    → base + total * page_size < 2 ^ 64
    → base % page_size ≡ 0
    → IsValid (record {
      bitmap = replicate w u64_max;
      mem_base = base;
      total_pages = total;
      free_pages = 0;
    })
all_used-IsValid w base total e small fits al = record {
  words = length-replicate w u64_max ∙ e;
  bounded = small;
  counted = sym (free_below-all_used _ total (λ q h. taken-ones w q (omega arith)));
  no_wrap = fits;
  aligned = al;
}

-- What `pmm_init` leaves: every managed page free, and no more of them than the bitmap holds.
pub record IsFresh (base size : ℕ) (s : Pmm) : Type 0 where
  pub valid : IsValid s
  pub base_kept : s.mem_base ≡ base
  pub capped : s.total_pages ≡ min (size / page_size) max_pages
  pub all_free : (q : ℕ) → q < s.total_pages → taken s.bitmap q ≡ 0
  pub count : s.free_pages ≡ s.total_pages

IsFresh-of_Marks :
    (base size total : ℕ) {s r : Pmm}
    → s.mem_base ≡ base
    → s.total_pages ≡ total
    → total ≡ min (size / page_size) max_pages
    → Marks 0 0 total s r
    → IsFresh base size r
IsFresh-of_Marks base size total {s} {r} eb et em m = record {
  valid = m.valid;
  base_kept = m.base ∙ eb;
  capped = omega (arith, m.total);
  all_free = free;
  count = m.valid.counted ∙ free_below-all_free r.bitmap r.total_pages free;
}
  where
    free : (q : ℕ) → q < r.total_pages → taken r.bitmap q ≡ 0
    free q h = m.bits q ∙ ground (arith, m.total)

-- For page-aligned memory whose end is below 2 ^ 64, pmm_init establishes the invariant, keeps the
-- base, manages min (mem_size / PAGE_SIZE) PMM_MAX_PAGES pages, and leaves each of them free and
-- counted.
pub init-IsFresh :
    (base size : ℕ)
    → base % page_size ≡ 0
    → base + size < 2 ^ 64
    → IsFresh base size (init base size)
unfolding init
init-IsFresh base size al fits =
    let total = if ltb max_pages (size / page_size) then max_pages else size / page_size in
    let small : total ≤ max_pages = ground arith in
    let whole : total ≤ size / page_size = ground arith in
    let seeded = all_used-IsValid bitmap_words base total refl small (omega arith) al in
    IsFresh-of_Marks base size total refl refl (ground arith)
      (free_range-Marks total 0 _ seeded (omega arith))
