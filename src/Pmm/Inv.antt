-- ===== src/Pmm/Inv.antt =====
-- The invariant of the page allocator of kernel/mm/pmm.c, and the functions that mark pages.
use kolibriarm.Base.{
  ℕ, zero, suc, ◌+◌, ◌-◌, ◌*◌, ◌/◌, ◌%◌, ◌^◌, ◌<◌, ◌≤◌, ◌≡◌, refl, ap, List, ◌==◌, if◌then◌else◌,
  arith, length, length-set, Bool-cases, inl, inr, ==-refl, ==-ne, ◌∙◌,
}
use native.Mathlib.Decide.{ℕ_discrete}
use kolibriarm.Bits.{bit_lt_two}
use kolibriarm.Pmm.{Pmm, max_pages, page_size, word_of, is_free, set_used, set_free}
use kolibriarm.Pmm.Pages.{taken, taken_free, taken_used, taken-set_used, taken-set_free}

-- How many of the first `n` pages are free.
abbrev pub free_below : List ℕ → ℕ → ℕ
free_below bm zero = 0
free_below bm (suc n) = free_below bm n + (1 - taken bm n)

pub record IsValid (s : Pmm) : Type 0 where
  pub words : length s.bitmap ≡ 512
  pub bounded : s.total_pages ≤ max_pages
  pub counted : s.free_pages ≡ free_below s.bitmap s.total_pages
  pub no_wrap : s.mem_base + s.total_pages * page_size < 2 ^ 64
  pub aligned : s.mem_base % page_size ≡ 0

pub free_below-le : (bm : List ℕ) (n : ℕ) → free_below bm n ≤ n
free_below-le bm zero = omega arith
free_below-le bm (suc n) = omega (arith, free_below-le bm n)

pub free_below-pos : (bm : List ℕ) (n p : ℕ) → p < n → taken bm p ≡ 0 → 0 < free_below bm n
free_below-pos bm zero p h e = elim h [ ]
free_below-pos bm (suc n) p h e = elim (ℕ_discrete p n) [
  | yes q ↦ omega (arith, ap (taken bm) q)
  | no q ↦ omega (arith, free_below-pos bm n p (omega arith) e)
]

-- Counting after one page's bit has been written.
module _ (bm bm' : List ℕ) (p b : ℕ)
    (one : (q : ℕ) → taken bm' q ≡ (if p == q then b else taken bm q)) where
  same_below : (n : ℕ) → n ≤ p → free_below bm' n ≡ free_below bm n
  same_below zero h = refl
  same_below (suc n) h = omega (
    arith,
    same_below n (omega arith),
    one n ∙ ap (λ t. if t then b else taken bm n) (==-ne p n (omega arith)),
  )

  free_below-write :
      (n : ℕ) → p < n → free_below bm' n + (1 - taken bm p) ≡ free_below bm n + (1 - b)
  free_below-write zero h = elim h [ ]
  free_below-write (suc n) h = elim (ℕ_discrete p n) [
    | yes e ↦
        rw (← e)
          (omega (arith, same_below p, one p ∙ ap (λ t. if t then b else taken bm p) (==-refl p)))
    | no ne ↦ omega (
      arith,
      free_below-write n (omega arith),
      one n ∙ ap (λ t. if t then b else taken bm n) (==-ne p n ne),
    )
  ]

in_words : {s : Pmm} {p : ℕ} → IsValid s → p < s.total_pages → p / 64 < length s.bitmap
in_words v h = omega arith

-- What marking a page does: to the bits, to the count of free pages, and to the invariant.
module _ {s : Pmm} (p : ℕ) (v : IsValid s) (h : p < s.total_pages) where
  pub taken-used :
      (q : ℕ) → taken (set_used s p).bitmap q ≡ (if p == q then 1 else taken s.bitmap q)
  unfolding set_used
  taken-used q = elim (Bool-cases (is_free s.bitmap p)) [
    | inl e ↦ rw e (taken-set_used s.bitmap p q (in_words v h))
    | inr e ↦ rw e (stays p q (taken_used s.bitmap p e))
  ]
    where
      stays :
          (p q : ℕ)
          → taken s.bitmap p ≡ 1
          → taken s.bitmap q ≡ (if p == q then 1 else taken s.bitmap q)
      stays p q e = elim (ℕ_discrete p q) [
        | yes d ↦ rw (← d, ==-refl p) e
        | no d ↦ rw (==-ne p q d)
      ]

  pub free_pages-used : (set_used s p).free_pages + (1 - taken s.bitmap p) ≡ s.free_pages
  unfolding set_used
  free_pages-used = elim (Bool-cases (is_free s.bitmap p)) [
    | inl e ↦ rw e (
        omega (
          arith,
          taken_free s.bitmap p e,
          free_below-pos s.bitmap s.total_pages p h (taken_free s.bitmap p e),
          free_below-le s.bitmap s.total_pages,
        ))
    | inr e ↦ rw e (omega (arith, taken_used s.bitmap p e))
  ]

  pub fixed-used :
      ((set_used s p).mem_base ≡ s.mem_base)
      × ((set_used s p).total_pages ≡ s.total_pages)
      × (length (set_used s p).bitmap ≡ length s.bitmap)
  unfolding set_used
  fixed-used = elim (Bool-cases (is_free s.bitmap p)) [
    | inl e ↦ rw e (refl, refl, length-set s.bitmap (p / 64) _)
    | inr e ↦ rw e (refl, refl, refl)
  ]

  pub set_used-IsValid : IsValid (set_used s p)
  set_used-IsValid = record {
    words = fixed-used.2 ∙ v.words;
    bounded = omega (arith, fixed-used);
    counted = rw (fixed-used.1) (
        omega (
          arith,
          free_pages-used,
          free_below-write s.bitmap (set_used s p).bitmap p 1 taken-used s.total_pages h,
        ));
    no_wrap = omega (arith, fixed-used);
    aligned = ap (λ k. k % page_size) fixed-used.0 ∙ v.aligned;
  }

-- The same for a page that is marked free.
module _ {s : Pmm} (p : ℕ) (v : IsValid s) (h : p < s.total_pages) where
  pub taken-freed :
      (q : ℕ) → taken (set_free s p).bitmap q ≡ (if p == q then 0 else taken s.bitmap q)
  unfolding set_free
  taken-freed q = elim (Bool-cases (is_free s.bitmap p)) [
    | inl e ↦ rw e (stays p q (taken_free s.bitmap p e))
    | inr e ↦ rw e (taken-set_free s.bitmap p q (in_words v h))
  ]
    where
      stays :
          (p q : ℕ)
          → taken s.bitmap p ≡ 0
          → taken s.bitmap q ≡ (if p == q then 0 else taken s.bitmap q)
      stays p q e = elim (ℕ_discrete p q) [
        | yes d ↦ rw (← d, ==-refl p) e
        | no d ↦ rw (==-ne p q d)
      ]

  pub free_pages-freed : (set_free s p).free_pages ≡ s.free_pages + taken s.bitmap p
  unfolding set_free
  free_pages-freed = elim (Bool-cases (is_free s.bitmap p)) [
    | inl e ↦ rw e (omega (arith, taken_free s.bitmap p e))
    | inr e ↦ rw e (omega (arith, taken_used s.bitmap p e, free_below-le s.bitmap s.total_pages))
  ]

  pub fixed-freed :
      ((set_free s p).mem_base ≡ s.mem_base)
      × ((set_free s p).total_pages ≡ s.total_pages)
      × (length (set_free s p).bitmap ≡ length s.bitmap)
  unfolding set_free
  fixed-freed = elim (Bool-cases (is_free s.bitmap p)) [
    | inl e ↦ rw e (refl, refl, refl)
    | inr e ↦ rw e (refl, refl, length-set s.bitmap (p / 64) _)
  ]

  pub set_free-IsValid : IsValid (set_free s p)
  set_free-IsValid = record {
    words = fixed-freed.2 ∙ v.words;
    bounded = omega (arith, fixed-freed);
    counted = rw (fixed-freed.1) (
        omega (
          arith,
          free_pages-freed,
          bit_lt_two (p % 64) (word_of s.bitmap p),
          free_below-write s.bitmap (set_free s p).bitmap p 0 taken-freed s.total_pages h,
        ));
    no_wrap = omega (arith, fixed-freed);
    aligned = ap (λ k. k % page_size) fixed-freed.0 ∙ v.aligned;
  }
