-- ===== src/Kheap/Free.antt =====
-- `kfree` of kernel/mm/kheap.c, on the addresses that blocks hold and that blocks in use hold.
use mathlib.Core.List.{Memᴰ}
use kolibriarm.Base.{
  ℕ, ◌+◌, ◌<◌, ◌≡◌, ◌≢◌, refl, sym, ap, ◌∙◌, false, ◌&&◌, not, List, [], ◌∷◌, Option, none, some,
  ◌==◌, u64, sub64, arith, Bool-cases, inl, inr, ==→eq, ◌⊎◌,
}
use kolibriarm.Kheap.{
  Block, Heap, header_size, blocks_can_coalesce, coalesce_next, release, put_back, free_behind,
  free_block, with_blocks, kfree,
}
use kolibriarm.Kheap.Cover.{one_if, holds, covers, uses, Sound, AllSound, nil, cons}
use kolibriarm.Kheap.Extend.{IsValid}

-- Other blocks that hold the same addresses and have as many in use.
record Equal (xs ys : List Block) : Type 0 where
  covered : (a : ℕ) → covers ys a ≡ covers xs a
  used : (a : ℕ) → uses ys a ≡ uses xs a
  sound : AllSound ys

-- Joining a free block with the next, if that is free and adjacent.
coalesce_next_lem :
    (block : Block) (rest : List Block)
    → Sound block
    → AllSound rest
    → block.free ≢ 0
    → Equal (block ∷ rest) (coalesce_next block rest)
unfolding coalesce_next covers uses
coalesce_next_lem block [] s all f = record {
  covered = λ a. refl;
  used = λ a. refl;
  sound = cons s nil;
}
coalesce_next_lem block (next ∷ rest) s (cons t all) f =
    elim (Bool-cases (blocks_can_coalesce block next)) [
      | inr apart ↦
          rw apart (record { covered = λ a. refl; used = λ a. refl; sound = cons s (cons t all) })
      | inl join ↦
          let place : next.address ≡ block.address + header_size + block.size =
            ground (arith, s.no_wrap) in
          let sum : u64 (block.size + (header_size + next.size))
              ≡ block.size + (header_size + next.size) =
            omega (arith, t.no_wrap) in
          rw (join, sum)
            (record {
              covered = λ a. ground arith;
              used = λ a. ground arith;
              sound =
                  cons
                    (record {
                      start = s.start;
                      whole = omega (arith, s.whole, t.whole);
                      above = s.above;
                      no_wrap = omega (arith, t.no_wrap);
                    })
                    all;
            })
    ]

-- The block, which was in use at the address, is no longer so, and no other address has changed.
pub record Freed (address : ℕ) (block : Block) (blocks now : List Block) : Type 0 where
  pub among : Memᴰ block blocks
  pub at : block.address ≡ address
  pub busy : block.free ≡ 0
  pub covered : (a : ℕ) → covers now a ≡ covers blocks a
  pub used : (a : ℕ) → uses blocks a ≡ uses now a + one_if (holds a block)
  pub sound : AllSound now

-- How many blocks start at an address, and how many free ones.
unfoldable pub starts : List Block → ℕ → ℕ
starts [] x = 0
starts (block ∷ rest) x = one_if (block.address == x) + starts rest x

unfoldable pub idle : List Block → ℕ → ℕ
idle [] x = 0
idle (block ∷ rest) x = one_if (block.address == x && not (block.free == 0)) + idle rest x

-- A block has been freed, or it was free, or there is no block at the address.
pub data ListOutcome (address : ℕ) (blocks : List Block) (r : Option (List Block)) : Type 0 where
  freed :
      (block : Block) (now : List Block)
      → r ≡ some now
      → Freed address block blocks now
      → ListOutcome address blocks r
  was_free : r ≡ some blocks → 0 < idle blocks address → ListOutcome address blocks r
  unknown : r ≡ none → starts blocks address ≡ 0 → ListOutcome address blocks r

release_lem :
    (address : ℕ) (block : Block) (rest : List Block)
    → Sound block
    → AllSound rest
    → block.address ≡ address
    → block.free ≡ 0
    → Freed address block (block ∷ rest) (release block rest)
unfolding covers uses
release_lem address block rest s all at f =
    let out : Block = record block { free = 1 } in
    let e =
      coalesce_next_lem out rest
        (record { start = s.start; whole = s.whole; above = s.above; no_wrap = s.no_wrap }) all
        (λ z. absurd (omega arith)) in
    record {
      among = Memᴰ.head refl;
      at = at;
      busy = f;
      covered = e.covered;
      used = λ a. ground (arith, e.used a);
      sound = e.sound;
    }

Freed-behind :
    (address : ℕ) (block prev : Block) (rest now : List Block)
    → Sound prev
    → Freed address block rest now
    → Freed address block (prev ∷ rest) (prev ∷ now)
unfolding covers uses
Freed-behind address block prev rest now s f = record {
  among = Memᴰ.tail f.among;
  at = f.at;
  busy = f.busy;
  covered = λ a. omega (arith, f.covered a);
  used = λ a. omega (arith, f.used a);
  sound = cons s f.sound;
}

-- A free block joins the freed one behind it.
Freed-coalesce_next :
    (address : ℕ) (block prev : Block) (rest now : List Block)
    → Sound prev
    → prev.free ≢ 0
    → Freed address block rest now
    → Freed address block (prev ∷ rest) (coalesce_next prev now)
Freed-coalesce_next address block prev rest now s nz f =
    let e = coalesce_next_lem prev now s f.sound nz in
    let b = Freed-behind address block prev rest now s f in
    record {
      among = b.among;
      at = f.at;
      busy = f.busy;
      covered = λ a. e.covered a ∙ b.covered a;
      used = λ a. b.used a ∙ ap (λ x. x + one_if (holds a block)) (sym (e.used a));
      sound = e.sound;
    }

put_back_lem :
    (address : ℕ) (prev : Block) (rest : List Block) (r : Option (List Block))
    → Sound prev
    → prev.address == address ≡ false
    → ListOutcome address rest r
    → ListOutcome address (prev ∷ rest) (put_back prev r)
unfolding starts idle
put_back_lem address prev rest r s ne (freed block now e f) =
    freed block (prev ∷ now) (ap (put_back prev) e) (Freed-behind address block prev rest now s f)
put_back_lem address prev rest r s ne (was_free e k) =
    was_free (ap (put_back prev) e) (ground arith)
put_back_lem address prev rest r s ne (unknown e k) = unknown (ap (put_back prev) e) (ground arith)

free_behind_lem :
    (address : ℕ) (prev : Block) (rest : List Block)
    → Sound prev
    → AllSound rest
    → prev.address == address ≡ false
    → ListOutcome address (prev ∷ rest) (free_behind address prev rest)
unfolding free_behind starts idle
free_behind_lem address prev [] s all ne = unknown refl (ground arith)
free_behind_lem address prev (block ∷ rest) s (cons t all) ne =
    elim (Bool-cases (block.address == address)) [
      | inr other ↦ rw other (
          put_back_lem address prev (block ∷ rest) _ s ne
            (free_behind_lem address block rest t all other))
      | inl here ↦
          let at : block.address ≡ address = ==→eq block.address address here in
          rw here (elim (Bool-cases (block.free == 0)) [
            | inr free ↦ rw free (was_free refl (ground arith))
            | inl busy ↦
                let f = release_lem address block rest t all at (==→eq block.free 0 busy) in
                rw busy (elim (Bool-cases (prev.free == 0)) [
                  | inl used ↦
                      rw used
                        (freed block _ refl (Freed-behind address block prev (block ∷ rest) _ s f))
                  | inr free ↦ rw free (
                      freed block _ refl (
                        Freed-coalesce_next address block prev (block ∷ rest) _ s (ground arith) f))
                ])
          ])
    ]

free_block_lem :
    (address : ℕ) (blocks : List Block)
    → AllSound blocks
    → ListOutcome address blocks (free_block address blocks)
unfolding free_block starts idle
free_block_lem address [] all = unknown refl refl
free_block_lem address (block ∷ rest) (cons s all) = elim (Bool-cases (block.address == address)) [
  | inr other ↦ rw other (free_behind_lem address block rest s all other)
  | inl here ↦ rw here (elim (Bool-cases (block.free == 0)) [
    | inr free ↦ rw free (was_free refl (ground arith))
    | inl busy ↦ rw busy (
        freed block _ refl (
          release_lem address block rest s all (==→eq block.address address here)
            (==→eq block.free 0 busy)))
  ])
]

-- The addresses of the block in use behind whose header the pointer leads are no longer in use, or
-- nothing has changed, or the pointer is unknown.
pub data FreeOutcome (ptr : ℕ) (h : Heap) (r : Option Heap) : Type 0 where
  done :
      (block : Block) (g : Heap)
      → Memᴰ block h.blocks
      → block.address ≡ sub64 ptr header_size
      → block.free ≡ 0
      → r ≡ some g
      → ((a : ℕ) → uses h.blocks a ≡ uses g.blocks a + one_if (holds a block))
      → ((a : ℕ) → covers g.blocks a ≡ covers h.blocks a)
      → IsValid g
      → FreeOutcome ptr h r
  unchanged :
      r ≡ some h → (ptr ≡ 0) ⊎ (0 < idle h.blocks (sub64 ptr header_size)) → FreeOutcome ptr h r
  unknown_pointer : r ≡ none → starts h.blocks (sub64 ptr header_size) ≡ 0 → FreeOutcome ptr h r

with_blocks_lem :
    (ptr : ℕ) (h : Heap) (r : Option (List Block))
    → IsValid h
    → ListOutcome (sub64 ptr header_size) h.blocks r
    → FreeOutcome ptr h (with_blocks h r)
with_blocks_lem ptr h r v (unknown e k) = unknown_pointer (ap (with_blocks h) e) k
with_blocks_lem ptr h r v (was_free e k) = unchanged (ap (with_blocks h) e) (inr k)
with_blocks_lem ptr h r v (freed block now e f) =
    done block (record h { blocks = now }) f.among f.at f.busy (ap (with_blocks h) e) f.used
      f.covered
      (record {
        pages = v.pages;
        above = v.above;
        sound = f.sound;
        single = λ a. omega (arith, f.covered a, v.single a);
        held = λ a k. v.held a (omega (arith, f.covered a));
      })

-- On a heap whose blocks do not overlap and lie in used pages of a valid allocator: if the header
-- 48 bytes before the pointer is that of a block in use, `kfree` takes exactly the addresses of
-- this block, its header and all its bytes, out of use; every other address stays in use or not as
-- it was, the blocks together hold the same addresses as before, and the heap stays valid. Or it
-- changes nothing, and then the pointer is null or a free block starts there; or the pointer leads
-- to no block, and then none starts there.
pub kfree_lem : (ptr : ℕ) (h : Heap) → IsValid h → FreeOutcome ptr h (kfree ptr h)
unfolding kfree
kfree_lem ptr h v = elim (Bool-cases (ptr == 0)) [
  | inl null ↦ rw null (unchanged refl (inl (==→eq ptr 0 null)))
  | inr some_ptr ↦
      rw some_ptr
        (with_blocks_lem ptr h _ v (free_block_lem (sub64 ptr header_size) h.blocks v.sound))
]
