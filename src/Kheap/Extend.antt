-- ===== src/Kheap/Extend.antt =====
-- The invariant of the heap of kernel/mm/kheap.c, and `extend_heap`.
use kolibriarm.Base.{
  ℕ, ◌+◌, ◌-◌, ◌*◌, ◌/◌, ◌<◌, ◌≤◌, ◌≡◌, ◌≢◌, refl, sym, ◌∙◌, subst, true, false, [], ◌∷◌, ◌++◌,
  Option, none, some, ltb, ◌==◌, arith, Bool-cases, inl, inr,
}
use kolibriarm.Pmm.{Pmm, page_size}
use kolibriarm.Pmm.Pages.{taken}
use kolibriarm.Pmm.Inv as PmmInv
use kolibriarm.Pmm.Ranges.{Marks}
use kolibriarm.Pmm.Runs.{RunOutcome, run, refused as no_run, alloc_pages_lem}
use kolibriarm.Kheap.{
  Block, Heap, header_size, page_count_for_payload, new_block, add_arena, extend_heap,
}
use kolibriarm.Kheap.Cover.{
  holds, one_if, covers, Sound, AllSound, nil, cons, covers-append, AllSound-append,
}

-- The address lies in a managed page that is in use.
abbrev pub Held : Pmm → ℕ → Type 0
Held pmm a =
    (q : ℕ) × (q < pmm.total_pages)
    × (pmm.mem_base + q * page_size ≤ a)
    × (a < pmm.mem_base + q * page_size + page_size)
    × (taken pmm.bitmap q ≡ 1)

pub record IsValid (h : Heap) : Type 0 where
  pub pages : PmmInv.IsValid h.pmm
  pub above : 0 < h.pmm.mem_base
  pub sound : AllSound h.blocks
  pub single : (a : ℕ) → covers h.blocks a ≤ 1
  pub held : (a : ℕ) → 0 < covers h.blocks a → Held h.pmm a

-- A free block of enough bytes in new pages stands behind the others; or there was no room.
pub data ExtendOutcome (h : Heap) (size : ℕ) (r : Option Block × Heap) : Type 0 where
  extended :
      (block : Block)
      → r.0 ≡ some block
      → r.1.blocks ≡ h.blocks ++ block ∷ []
      → size ≤ block.size
      → Sound block
      → block.free ≡ 1
      → IsValid r.1
      → ExtendOutcome h size r
  full : r.0 ≡ none → r.1.blocks ≡ h.blocks → IsValid r.1 → ExtendOutcome h size r

page_count_lem :
    (size : ℕ)
    → page_count_for_payload size ≢ 0
    → header_size + size ≤ page_count_for_payload size * page_size
unfolding page_count_for_payload
page_count_lem size nz = ground arith

module _ (h : Heap) (v : IsValid h) (address pages p : ℕ) (left : Pmm) (pos : 0 < pages)
    (inside : p + pages ≤ h.pmm.total_pages)
    (free : (q : ℕ) → p ≤ q → q < p + pages → taken h.pmm.bitmap q ≡ 0)
    (at : address ≡ h.pmm.mem_base + p * page_size) (marks : Marks 1 p pages h.pmm left) where
  arena : Block
  arena = new_block address pages h.next_arena_id

  arena-Sound : Sound arena
  unfolding arena
  arena-Sound = record {
    start = omega (arith, v.pages.aligned);
    whole = omega arith;
    above = omega (arith, v.pages.aligned, v.above);
    no_wrap = omega (arith, v.pages.no_wrap);
  }

  -- No block had an address of the new pages, which were free.
  arena_new : (a : ℕ) → holds a arena ≡ true → covers h.blocks a ≡ 0
  unfolding arena
  arena_new a here = elim (Bool-cases (ltb 0 (covers h.blocks a))) [
    | inr none_there ↦ ground arith
    | inl some_there ↦ absurd (
        let (q, k, lo, hi, used) = v.held a (ground arith) in
        let from : p ≤ q = ground arith in
        let to : q < p + pages = ground arith in omega (arith, free q from to, used))
  ]

  arena-Held : (a : ℕ) → holds a arena ≡ true → Held left a
  unfolding arena
  arena-Held a here =
      let q = (a - h.pmm.mem_base) / page_size in
      let lo : address ≤ a = ground arith in
      let hi : a < address + pages * page_size = ground arith in
      let from : p ≤ q = omega arith in
      let to : q < p + pages = omega arith in
      (
        q,
        omega (arith, marks.total),
        omega (arith, marks.base),
        omega (arith, marks.base),
        marks.bits q ∙ ground arith,
      )

  old_Held : (a : ℕ) → Held h.pmm a → Held left a
  old_Held a (q, k, lo, hi, used) = (
    q,
    omega (arith, marks.total),
    omega (arith, marks.base),
    omega (arith, marks.base),
    marks.bits q ∙ ground arith,
  )

  covers_more :
      (a : ℕ) → covers (h.blocks ++ arena ∷ []) a ≡ covers h.blocks a + one_if (holds a arena)
  unfolding covers
  covers_more a = omega (arith, covers-append h.blocks (arena ∷ []) a)

  with_arena-IsValid :
      (total next : ℕ)
      → IsValid (record {
        blocks = h.blocks ++ arena ∷ [];
        total_bytes = total;
        next_arena_id = next;
        pmm = left;
      })
  with_arena-IsValid total next = record {
    pages = marks.valid;
    above = omega (arith, v.above, marks.base);
    sound = AllSound-append v.sound (cons arena-Sound nil);
    single = λ a. elim (Bool-cases (holds a arena)) [
      | inl here ↦ ground (arith, covers_more a, arena_new a here)
      | inr there ↦ ground (arith, covers_more a, v.single a)
    ];
    held = λ a k. elim (Bool-cases (holds a arena)) [
      | inl here ↦ arena-Held a here
      | inr there ↦ old_Held a (v.held a (ground (arith, covers_more a)))
    ];
  }

-- The other fields do not matter.
same_blocks-IsValid : (h g : Heap) → g.blocks ≡ h.blocks → g.pmm ≡ h.pmm → IsValid h → IsValid g
same_blocks-IsValid h g b e v = record {
  pages = subst PmmInv.IsValid (sym e) v.pages;
  above = subst (λ (x : Pmm). 0 < x.mem_base) (sym e) v.above;
  sound = subst AllSound (sym b) v.sound;
  single = λ a. subst (λ x. covers x a ≤ 1) (sym b) (v.single a);
  held = λ a k. subst (λ x. Held x a) (sym e) (v.held a (subst (λ x. 0 < covers x a) b k));
}

add_arena_lem :
    (h : Heap) (size pages : ℕ) (r : ℕ × Pmm)
    → IsValid h
    → header_size + size ≤ pages * page_size
    → RunOutcome h.pmm pages r
    → ExtendOutcome h size (add_arena pages h r)
unfolding arena
add_arena_lem h size pages r v enough (no_run same why) =
    subst (λ x. ExtendOutcome h size (add_arena pages h x)) (sym same)
      (full refl refl (same_blocks-IsValid h _ refl refl v))
add_arena_lem h size pages (address, left) v enough (run p pos inside free lowest at marks count) =
    let here : address == 0 ≡ false = ground (arith, v.above) in
    rw here (
      extended (new_block address pages h.next_arena_id) refl refl (omega arith)
        (arena-Sound h v address pages p left pos inside free at marks) refl
        (with_arena-IsValid h v address pages p left pos inside free at marks _ _))

pub extend_heap_lem : (size : ℕ) (h : Heap) → IsValid h → ExtendOutcome h size (extend_heap size h)
unfolding extend_heap
extend_heap_lem size h v = elim (Bool-cases (page_count_for_payload size == 0)) [
  | inl many ↦ rw many (full refl refl v)
  | inr good ↦ rw good (
      add_arena_lem h size (page_count_for_payload size) _ v (page_count_lem size (ground arith))
        (alloc_pages_lem h.pmm (page_count_for_payload size) v.pages))
]
