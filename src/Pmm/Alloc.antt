-- ===== src/Pmm/Alloc.antt =====
-- What `pmm_alloc_page` and `pmm_free_page` of kernel/mm/pmm.c do to the set of used pages.
use kolibriarm.Base.{ℕ, zero, suc, ◌+◌, ◌*◌, ◌<◌, ◌≡◌, refl, ◌∙◌, arith, Bool-cases, inl, inr}
use kolibriarm.Pmm.{Pmm, page_size, is_free, set_used, alloc_from, alloc_page}
use kolibriarm.Pmm.Pages.{taken, taken_free, taken_used}
use kolibriarm.Pmm.Inv.{IsValid, taken-used, fixed-used, free_pages-used, set_used-IsValid}
use kolibriarm.Pmm.Ranges.{Marks}

-- The lowest free page has been handed out, or there was none.
pub data PageOutcome (s : Pmm) (r : ℕ × Pmm) : Type 0 where
  page :
      (p : ℕ)
      → p < s.total_pages
      → taken s.bitmap p ≡ 0
      → ((q : ℕ) → q < p → taken s.bitmap q ≡ 1)
      → r.0 ≡ s.mem_base + p * page_size
      → Marks 1 p 1 s r.1
      → r.1.free_pages + 1 ≡ s.free_pages
      → PageOutcome s r
  exhausted : r ≡ (0, s) → ((q : ℕ) → q < s.total_pages → taken s.bitmap q ≡ 1) → PageOutcome s r

set_used-Marks : {s : Pmm} (p : ℕ) → IsValid s → p < s.total_pages → Marks 1 p 1 s (set_used s p)
set_used-Marks {s} p v h = record {
  valid = set_used-IsValid p v h;
  bits = λ q. taken-used p v h q ∙ ground arith;
  base = (fixed-used p v h).0;
  total = (fixed-used p v h).1;
}

alloc_from_lem :
    (n p : ℕ) (s : Pmm)
    → IsValid s
    → p + n ≡ s.total_pages
    → ((q : ℕ) → q < p → taken s.bitmap q ≡ 1)
    → PageOutcome s (alloc_from n p s)
unfolding alloc_from
alloc_from_lem zero p s v e below = exhausted refl (λ q h. below q (omega arith))
alloc_from_lem (suc n) p s v e below = elim (Bool-cases (is_free s.bitmap p)) [
  | inl f ↦ rw f (
      page p (omega arith) (taken_free s.bitmap p f) below (omega arith)
        (set_used-Marks p v (omega arith))
        (omega (arith, free_pages-used p v (omega arith), taken_free s.bitmap p f)))
  | inr f ↦ rw f (
      alloc_from_lem n (p + 1) s v (omega arith)
        (λ q h. ground (arith, below q, taken_used s.bitmap p f)))
]

-- On a valid allocator pmm_alloc_page hands out the lowest free page by its address, marks that
-- page used and no other, and lowers the free count by one; it answers 0 and changes nothing only
-- if every managed page is used.
pub alloc_page_lem : (s : Pmm) → IsValid s → PageOutcome s (alloc_page s)
unfolding alloc_page
alloc_page_lem s v = alloc_from_lem s.total_pages 0 s v (omega arith) (λ q h. absurd (omega arith))
