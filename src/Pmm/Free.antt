-- ===== src/Pmm/Free.antt =====
-- `pmm_free_page` of kernel/mm/pmm.c, alone and after an allocation.
use kolibriarm.Base.{
  ℕ, ◌+◌, ◌*◌, ◌/◌, ◌%◌, ◌^◌, ◌<◌, ◌≡◌, ◌≢◌, refl, ap, ◌∙◌, true, false, ltb, leb, ◌==◌, arith,
  Bool-cases, inl, inr, ltb→lt, subst, bit_and, sub64,
}
use kolibriarm.Bits.{bit_and-ones}
use kolibriarm.Pmm.{Pmm, page_size, set_free, alloc_page, free_page}
use kolibriarm.Pmm.Pages.{taken}
use kolibriarm.Pmm.Inv.{IsValid, taken-freed, fixed-freed, free_pages-freed, set_free-IsValid}
use kolibriarm.Pmm.Ranges.{Marks, free_below-all_used}
use kolibriarm.Pmm.Alloc.{PageOutcome, page, exhausted, alloc_page_lem}

set_free-Marks : {s : Pmm} (p : ℕ) → IsValid s → p < s.total_pages → Marks 0 p 1 s (set_free s p)
set_free-Marks {s} p v h = record {
  valid = set_free-IsValid p v h;
  bits = λ q. taken-freed p v h q ∙ ground arith;
  base = (fixed-freed p v h).0;
  total = (fixed-freed p v h).1;
}

-- The call has made one page free, or the address is that of no managed page.
pub data FreeOutcome (s : Pmm) (paddr : ℕ) (r : Pmm) : Type 0 where
  freed :
      (p : ℕ)
      → p < s.total_pages
      → paddr ≡ s.mem_base + p * page_size
      → Marks 0 p 1 s r
      → r.free_pages ≡ s.free_pages + taken s.bitmap p
      → FreeOutcome s paddr r
  ignored :
      r ≡ s
      → ((p : ℕ) → p < s.total_pages → paddr ≢ s.mem_base + p * page_size)
      → FreeOutcome s paddr r

-- On a valid allocator pmm_free_page, for an address below 2 ^ 64, makes the managed page at that
-- address free and counts it once, and changes nothing if no managed page has that address.
pub free_page_lem :
    (s : Pmm) (paddr : ℕ) → IsValid s → paddr < 2 ^ 64 → FreeOutcome s paddr (free_page s paddr)
unfolding free_page
free_page_lem s paddr v h = elim (Bool-cases (ltb paddr s.mem_base)) [
  | inl low ↦ rw low (ignored refl (λ p hp e. absurd (omega (arith, ltb→lt paddr s.mem_base low))))
  | inr high ↦ rw high (elim (Bool-cases (bit_and paddr 4095 == 0)) [
    | inr odd ↦ rw odd (ignored refl (λ p hp e. misses (λ o. ground (arith, mask)) odd p e))
    | inl even ↦
        rw even (elim (Bool-cases (leb s.total_pages (sub64 paddr s.mem_base / page_size))) [
          | inl far ↦ rw far (ignored refl (λ p hp e. absurd (ground arith)))
          | inr near ↦ rw near (
              freed (sub64 paddr s.mem_base / page_size) (ground arith) (exact high even)
                (set_free-Marks _ v (ground arith)) (free_pages-freed _ v (ground arith)))
        ])
  ])
]
  where
    mask : bit_and paddr 4095 ≡ paddr % 4096
    mask = bit_and-ones 12 paddr

    misses :
        ((o : bit_and paddr 4095 ≢ 0) → paddr % 4096 ≢ 0)
        → (bit_and paddr 4095 == 0) ≡ false
        → (p : ℕ) → paddr ≡ s.mem_base + p * page_size
        → ⊥
    misses f odd p e = omega (arith, f (λ z. ground arith), v)

    exact :
        ltb paddr s.mem_base ≡ false
        → (bit_and paddr 4095 == 0) ≡ true
        → paddr ≡ s.mem_base + sub64 paddr s.mem_base / page_size * page_size
    exact high even = ground (arith, mask)

-- A page is taken and made free again at its address.
given_back :
    {s t r : Pmm} (p : ℕ)
    → p < s.total_pages
    → taken s.bitmap p ≡ 0
    → Marks 1 p 1 s t
    → t.free_pages + 1 ≡ s.free_pages
    → FreeOutcome t (s.mem_base + p * page_size) r
    → ((q : ℕ) → taken r.bitmap q ≡ taken s.bitmap q) × (r.free_pages ≡ s.free_pages)
given_back {s} {t} {r} p hp free m c (freed p' hp' e' m' c') = (
  λ q. m'.bits q ∙ ground (arith, m.bits q, same, ap (taken s.bitmap) same, free, q_is_p q),
  omega (arith, c', c, m.bits p, taken_p),
)
  where
    same : p' ≡ p
    same = omega (arith, e', m.base)

    q_is_p : (q : ℕ) → q ≡ p → taken s.bitmap q ≡ 0
    q_is_p q e = ap (taken s.bitmap) e ∙ free

    taken_p : taken t.bitmap p' ≡ 1
    taken_p = ap (taken t.bitmap) same ∙ m.bits p ∙ ground arith
given_back p hp free m c (ignored e' none) =
    absurd (none p (omega (arith, m.total)) (omega (arith, m.base)))

-- On a valid allocator with a free page, giving the page of pmm_alloc_page back by pmm_free_page
-- leaves every page and the free count as they were.
pub free_page-alloc_page :
    (s : Pmm)
    → IsValid s
    → 0 < s.free_pages
    → let (paddr, taken_out) = alloc_page s in
      let back = free_page taken_out paddr in
      ((q : ℕ) → taken back.bitmap q ≡ taken s.bitmap q) × (back.free_pages ≡ s.free_pages)
free_page-alloc_page s v some = go (alloc_page s) (alloc_page_lem s v)
  where
    go :
        (r : ℕ × Pmm)
        → PageOutcome s r
        → ((q : ℕ) → taken (free_page r.1 r.0).bitmap q ≡ taken s.bitmap q)
          × ((free_page r.1 r.0).free_pages ≡ s.free_pages)
    go r (page p hp free low a m c) = given_back p hp free m c (
        subst (λ k. FreeOutcome r.1 k (free_page r.1 r.0)) a
          (free_page_lem r.1 r.0 m.valid (omega (arith, a, v))))
    go r (exhausted e all) =
        absurd (omega (arith, v.counted, free_below-all_used s.bitmap s.total_pages all))
