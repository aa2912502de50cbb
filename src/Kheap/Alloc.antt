-- ===== src/Kheap/Alloc.antt =====
-- `kmalloc` of kernel/mm/kheap.c: blocks in use never overlap.
use kolibriarm.Base.{
  ℕ, ◌+◌, ◌-◌, ◌*◌, ◌/◌, ◌%◌, ◌^◌, ◌<◌, ◌≤◌, ◌≡◌, refl, sym, ap, ◌∙◌, subst, Bool, true, ◌&&◌, ◌||◌,
  List, [], ◌∷◌, ◌++◌, Option, none, some, ltb, leb, ◌==◌, u64, u64_max, bit_and, complement64,
  arith, Bool-cases, inl, inr,
}
use kolibriarm.Bits.{bit_and-ones, bit_and-shl}
use kolibriarm.Kheap.{
  Block, Heap, header_size, heap_align, align_up, extend_heap, take, take_last, use_found, init,
  kmalloc,
}
use kolibriarm.Kheap.Cover.{
  holds, one_if, covers, uses, uses_le, covers-append, uses-append, AllSound-append, take_lem,
  FirstOutcome, first, none_fits, take_first_lem,
}
use kolibriarm.Kheap.Extend.{IsValid, ExtendOutcome, extended, full, extend_heap_lem}

-- The n bytes of a payload behind the header at `address`, with the header.
abbrev pub spans : ℕ → ℕ → ℕ → Bool
spans address n a = leb address a && ltb a (address + header_size + n)

-- A block of enough bytes, no address of which was in use, is in use now and nothing else has
-- changed; or no more is in use than before.
pub data AllocOutcome (size : ℕ) (h : Heap) (r : Option ℕ × Heap) : Type 0 where
  allocated :
      (address n : ℕ)
      → r.0 ≡ some (address + header_size)
      → size ≤ n
      → (address + header_size) % 16 ≡ 0
      → ((a : ℕ) → spans address n a ≡ true → uses h.blocks a ≡ 0)
      → ((a : ℕ) → uses r.1.blocks a ≡ uses h.blocks a + one_if (spans address n a))
      → IsValid r.1
      → AllocOutcome size h r
  refused :
      r.0 ≡ none
      → ((a : ℕ) → uses r.1.blocks a ≡ uses h.blocks a)
      → IsValid r.1
      → AllocOutcome size h r

align_up_lem : (size : ℕ) → size + 15 < 2 ^ 64 → (align_up size % 16 ≡ 0) × (size ≤ align_up size)
unfolding align_up
align_up_lem size h =
    let sum : u64 (size + heap_align - 1) ≡ size + 15 = omega arith in
    let whole : align_up size ≡ (size + 15) / 16 * 16 =
      ap (λ x. bit_and x (complement64 (heap_align - 1))) sum
      ∙ omega (arith, bit_and-shl 4 (size + 15) (2 ^ 60 - 1), bit_and-ones 60 ((size + 15) / 16)) in
    (omega arith, omega arith)

uses_free :
    (blocks : List Block) (block : Block) (a : ℕ)
    → block.free ≡ 1
    → uses (blocks ++ block ∷ []) a ≡ uses blocks a
unfolding uses
uses_free blocks block a e = ground (arith, uses-append blocks (block ∷ []) a)

covers_one :
    (blocks : List Block) (block : Block) (a : ℕ)
    → covers (blocks ++ block ∷ []) a ≡ covers blocks a + one_if (holds a block)
unfolding covers
covers_one blocks block a = omega (arith, covers-append blocks (block ∷ []) a)

-- The heap before the loop: blocks in use are as they were.
init_lem :
    (h : Heap) → IsValid h → IsValid (init h) × ((a : ℕ) → uses (init h).blocks a ≡ uses h.blocks a)
unfolding init
init_lem h v = by_blocks h.blocks refl
  where
    extended_uses :
        (r : Option Block × Heap)
        → h.blocks ≡ []
        → ExtendOutcome h 1 r
        → IsValid r.1 × ((a : ℕ) → uses r.1.blocks a ≡ uses h.blocks a)
    extended_uses r e (full status same valid) = (valid, λ a. ap (λ x. uses x a) same)
    extended_uses r e (extended block some_block same enough s free valid) =
        (valid, λ a. ap (λ x. uses x a) same ∙ uses_free h.blocks block a free)

    by_blocks :
        (blocks : List Block)
        → h.blocks ≡ blocks
        → IsValid (elim blocks as (λ x. Heap) [ [] ↦ (extend_heap 1 h).1 | block ∷ rest ↦ h ])
          × ((a : ℕ)
              → uses
                  (elim blocks as (λ x. Heap) [
                    | [] ↦ (extend_heap 1 h).1
                    | block ∷ rest ↦ h
                  ]).blocks
                  a
                ≡ uses h.blocks a)
    by_blocks [] e = extended_uses (extend_heap 1 h) e (extend_heap_lem 1 h v)
    by_blocks (block ∷ rest) e = (v, λ a. refl)

take_last_lem :
    (size : ℕ) (h : Heap) (r : Option Block × Heap)
    → IsValid h
    → size % 16 ≡ 0
    → ExtendOutcome h size r
    → AllocOutcome size h (take_last h size r)
take_last_lem size h (some block, g) v w (full status same valid) = absurd (ground arith)
take_last_lem size h (none, g) v w (extended block some_block same enough s free valid) =
    absurd (ground arith)
take_last_lem size h (none, g) v w (full status same valid) =
    refused refl (λ a. ap (λ x. uses x a) same) valid
take_last_lem size h (some b, g) v w (extended block some_block same enough s free valid) =
    let here : b ≡ block =
      ap (λ (o : Option Block). elim o [ none ↦ block | some x ↦ x ]) some_block in
    let (n, t) = take_lem block size s w enough in
    let covered : (a : ℕ) → covers g.blocks a ≡ covers h.blocks a + one_if (holds a block) =
      λ a. ap (λ x. covers x a) same ∙ covers_one h.blocks block a in
    let placed : (a : ℕ) → covers (h.blocks ++ take block size) a ≡ covers g.blocks a =
      λ a. omega (arith, covers-append h.blocks (take block size) a, t.covered a, covered a) in
    subst
      (λ (x : Block).
        AllocOutcome size h
          (some (x.address + header_size), record g { blocks = h.blocks ++ take x size }))
      (sym here)
      (allocated block.address n refl t.enough (omega (arith, s.start))
        (λ a inside. ground (arith, uses_le h.blocks a, covered a, valid.single a, t.inside))
        (λ a. uses-append h.blocks (take block size) a ∙ ap (λ x. uses h.blocks a + x) (t.used a))
        (record {
          pages = valid.pages;
          above = valid.above;
          sound = AllSound-append v.sound t.sound;
          single = λ a. omega (arith, placed a, valid.single a);
          held = λ a k. valid.held a (omega (arith, placed a));
        }))

use_found_lem :
    (size : ℕ) (h : Heap) (r : Option (ℕ × List Block))
    → IsValid h
    → size % 16 ≡ 0
    → FirstOutcome h.blocks size r
    → AllocOutcome size h (use_found h size r)
use_found_lem size h (some x) v w (none_fits e) = absurd (ground arith)
use_found_lem size h none v w (none_fits e) =
    take_last_lem size h (extend_heap size h) v w (extend_heap_lem size h v)
use_found_lem size h r v w (first address n now e t) =
    subst (λ x. AllocOutcome size h (use_found h size x)) (sym e)
      (allocated address n refl t.enough (omega (arith, t.at))
        (λ a inside. ground (arith, t.was_free a inside, v.single a)) t.used
        (record {
          pages = v.pages;
          above = v.above;
          sound = t.sound;
          single = λ a. omega (arith, t.covered a, v.single a);
          held = λ a k. v.held a (omega (arith, t.covered a));
        }))

-- What the heap before the loop has in use is what the heap had.
from_init :
    (size : ℕ) (h g : Heap) (r : Option ℕ × Heap)
    → ((a : ℕ) → uses g.blocks a ≡ uses h.blocks a)
    → AllocOutcome size g r
    → AllocOutcome size h r
from_init size h g r same (allocated address n e enough at free used valid) =
    allocated address n e enough at (λ a inside. sym (same a) ∙ free a inside)
      (λ a. used a ∙ ap (λ x. x + one_if (spans address n a)) (same a)) valid
from_init size h g r same (refused e used valid) = refused e (λ a. used a ∙ same a) valid

smaller :
    (size more : ℕ) (h : Heap) (r : Option ℕ × Heap)
    → size ≤ more
    → AllocOutcome more h r
    → AllocOutcome size h r
smaller size more h r le (allocated address n e enough at free used valid) =
    allocated address n e (omega arith) at free used valid
smaller size more h r le (refused e used valid) = refused e used valid

-- On a heap whose blocks do not overlap and lie in used pages of a valid allocator, for a size below
-- 2 ^ 64: `kmalloc` returns an address that is a multiple of 16, with at least the size in bytes behind
-- it, of which no address, the header's included, was in a block in use; these addresses are in use
-- then, and all others as before. Or it returns null and as much is in use as before. Either way the
-- heap stays valid.
pub kmalloc_lem :
    (size : ℕ) (h : Heap) → IsValid h → size < 2 ^ 64 → AllocOutcome size h (kmalloc size h)
unfolding kmalloc
kmalloc_lem size h v w = elim (Bool-cases (size == 0 || ltb (u64_max - (heap_align - 1)) size)) [
  | inl bad ↦ rw bad (refused refl (λ a. refl) v)
  | inr good ↦
      let (whole, enough) = align_up_lem size (ground arith) in
      let (valid, same) = init_lem h v in
      rw good (
        from_init size h (init h) _ same (
          smaller size (align_up size) (init h) _ enough (
            use_found_lem (align_up size) (init h) _ valid whole
              (take_first_lem (init h).blocks (align_up size) valid.sound whole))))
]
