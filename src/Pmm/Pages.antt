-- ===== src/Pmm/Pages.antt =====
-- The bitmap of kernel/mm/pmm.c page by page: what each write of a word does to every page.
use kolibriarm.Base.{
  ℕ, zero, suc, ◌*◌, ◌/◌, ◌%◌, ◌^◌, ◌<◌, ◌≡◌, refl, ap, bit_and, bit_or, true, false, List, ◌==◌,
  if◌then◌else◌, set, arith, get_or-set_self, get_or-set_ne, complement64, length, ==-refl, ==-ne,
  sym, ◌∙◌, ==→eq,
}
use native.Mathlib.Decide.{ℕ_discrete}
use kolibriarm.Bits.{bit, bit_lt_two, bit-set_bit, bit-clear_bit, bit_and-one_shl, two_pow_pos}
use kolibriarm.Pmm.{mask_of, word_of, is_free}

-- A page's bit: 1 for a used page.
abbrev pub taken : List ℕ → ℕ → ℕ
taken bitmap page = bit (page % 64) (word_of bitmap page)

pub is_free-taken : (bm : List ℕ) (p : ℕ) → is_free bm p ≡ (taken bm p == 0)
unfolding is_free
is_free-taken bm p =
    rw (bit_and-one_shl (p % 64) (word_of bm p))
      (ground (arith, product (taken bm p) (2 ^ (p % 64)) (two_pow_pos (p % 64))))
  where
    product : (b m : ℕ) → 0 < m → (b * m == 0) ≡ (b == 0)
    product zero m h = grind arith
    product (suc b) m h = grind arith

pub taken_free : (bm : List ℕ) (p : ℕ) → is_free bm p ≡ true → taken bm p ≡ 0
taken_free bm p h = ==→eq (taken bm p) 0 (sym (is_free-taken bm p) ∙ h)

pub taken_used : (bm : List ℕ) (p : ℕ) → is_free bm p ≡ false → taken bm p ≡ 1
taken_used bm p h = ground (arith, bit_lt_two (p % 64) (word_of bm p), sym (is_free-taken bm p) ∙ h)

pub free_taken : (bm : List ℕ) (p : ℕ) → taken bm p ≡ 0 → is_free bm p ≡ true
free_taken bm p h = is_free-taken bm p ∙ ap (λ k. k == 0) h

pub used_taken : (bm : List ℕ) (p : ℕ) → taken bm p ≡ 1 → is_free bm p ≡ false
used_taken bm p h = is_free-taken bm p ∙ ap (λ k. k == 0) h

taken-set :
    (bm : List ℕ) (p q v : ℕ)
    → p / 64 < length bm
    → taken (set bm (p / 64) v) q ≡ (if p / 64 == q / 64 then bit (q % 64) v else taken bm q)
taken-set bm p q v h = elim (ℕ_discrete (p / 64) (q / 64)) [
  | yes e ↦ rw (← e, ==-refl, get_or-set_self bm (p / 64) v 0 h)
  | no ne ↦ rw (==-ne _ _ ne, get_or-set_ne bm (p / 64) (q / 64) v 0 ne)
]

same_page : (p q : ℕ) → p / 64 ≡ q / 64 → p % 64 ≡ q % 64 → p ≡ q
same_page p q d r = omega arith

-- A write of a word that changes one bit changes that page.
taken-set-bit :
    (bm : List ℕ) (p q v b : ℕ)
    → p / 64 < length bm
    → bit (q % 64) v ≡ (if q % 64 == p % 64 then b else bit (q % 64) (word_of bm p))
    → taken (set bm (p / 64) v) q ≡ (if p == q then b else taken bm q)
taken-set-bit bm p q v b h e = elim (ℕ_discrete (p / 64) (q / 64)) [
  | yes d ↦
      rw (taken-set bm p q v h, d, ==-refl, e, ← d)
        (elim (ℕ_discrete (q % 64) (p % 64)) [
          | yes r ↦ rw (r, ==-refl, same_page p q d (sym r), ==-refl)
          | no r ↦ rw (==-ne _ _ r, ==-ne p q (λ s. r (ap (λ k. k % 64) (sym s)))) refl
        ])
  | no d ↦ rw (taken-set bm p q v h, ==-ne _ _ d, ==-ne p q (λ s. d (ap (λ k. k / 64) s)))
]

-- Marking a page used sets that page's bit and no other.
pub taken-set_used :
    (bm : List ℕ) (p q : ℕ)
    → p / 64 < length bm
    → taken (set bm (p / 64) (bit_or (word_of bm p) (mask_of p))) q
      ≡ (if p == q then 1 else taken bm q)
taken-set_used bm p q h = taken-set-bit bm p q _ 1 h (bit-set_bit (q % 64) (p % 64) (word_of bm p))

-- Marking a page free clears that page's bit and no other.
pub taken-set_free :
    (bm : List ℕ) (p q : ℕ)
    → p / 64 < length bm
    → taken (set bm (p / 64) (bit_and (word_of bm p) (complement64 (mask_of p)))) q
      ≡ (if p == q then 0 else taken bm q)
taken-set_free bm p q h =
    taken-set-bit bm p q _ 0 h
      (bit-clear_bit 64 (q % 64) (p % 64) (word_of bm p) (omega arith) (omega arith))
