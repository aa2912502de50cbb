-- ===== src/Kheap/Cover.antt =====
-- The addresses that the blocks of kernel/mm/kheap.c hold: what splitting and joining blocks keep.
use kolibriarm.Base.{
  ℕ, ◌+◌, ◌%◌, ◌^◌, ◌<◌, ◌≤◌, ◌≡◌, refl, ap, Bool, true, ◌&&◌, List, [], ◌∷◌, ◌++◌, Option, none,
  some, ltb, leb, ◌==◌, if◌then◌else◌, u64, arith, Bool-cases, inl, inr,
}
use kolibriarm.Kheap.{
  Block, header_size, min_split, split_block, take, fits, take_first, put_before,
}

-- The address lies in the block, its header included.
abbrev pub holds : ℕ → Block → Bool
holds a block = leb block.address a && ltb a (block.address + header_size + block.size)

abbrev pub one_if : Bool → ℕ
one_if b = if b then 1 else 0

-- How many blocks hold an address, and how many blocks in use.
unfoldable pub covers : List Block → ℕ → ℕ
covers [] a = 0
covers (block ∷ rest) a = one_if (holds a block) + covers rest a

unfoldable pub uses : List Block → ℕ → ℕ
uses [] a = 0
uses (block ∷ rest) a = one_if (holds a block && block.free == 0) + uses rest a

pub record Sound (block : Block) : Type 0 where
  pub start : block.address % 16 ≡ 0
  pub whole : block.size % 16 ≡ 0
  pub above : 4096 ≤ block.address
  pub no_wrap : block.address + header_size + block.size < 2 ^ 64

pub data AllSound : List Block → Type 0 where
  nil : AllSound []
  cons : {block : Block} {rest : List Block} → Sound block → AllSound rest → AllSound (block ∷ rest)

pub covers-append : (xs ys : List Block) (a : ℕ) → covers (xs ++ ys) a ≡ covers xs a + covers ys a
unfolding covers
covers-append [] ys a = omega arith
covers-append (x ∷ xs) ys a = omega (arith, covers-append xs ys a)

pub uses-append : (xs ys : List Block) (a : ℕ) → uses (xs ++ ys) a ≡ uses xs a + uses ys a
unfolding uses
uses-append [] ys a = omega arith
uses-append (x ∷ xs) ys a = omega (arith, uses-append xs ys a)

pub AllSound-append : {xs ys : List Block} → AllSound xs → AllSound ys → AllSound (xs ++ ys)
AllSound-append nil s = s
AllSound-append (cons x r) s = cons x (AllSound-append r s)

-- A free block has been taken: the blocks in its place hold the same addresses, and the first of them,
-- of n bytes, is the only one in use.
pub record Taken (block : Block) (size n : ℕ) (blocks : List Block) : Type 0 where
  pub enough : size ≤ n
  pub covered : (a : ℕ) → covers blocks a ≡ one_if (holds a block)
  pub used :
      (a : ℕ)
      → uses blocks a ≡ one_if (leb block.address a && ltb a (block.address + header_size + n))
  pub inside : n ≤ block.size
  pub sound : AllSound blocks

pub take_lem :
    (block : Block) (size : ℕ)
    → Sound block
    → size % 16 ≡ 0
    → size ≤ block.size
    → (n : ℕ) × Taken block size n (take block size)
unfolding take split_block covers uses
take_lem block size s w h =
    elim (Bool-cases (ltb block.size (u64 (size + header_size + min_split)))) [
      | inl small ↦ rw small (
        block.size,
        record {
          enough = h;
          covered = λ a. ground arith;
          used = λ a. ground arith;
          inside = omega arith;
          sound =
              cons
                (record { start = s.start; whole = s.whole; above = s.above; no_wrap = s.no_wrap })
                nil;
        },
      )
      | inr big ↦
          let room : size + 80 ≤ block.size = ground (arith, s.no_wrap, s.above) in
          let next : u64 (block.address + header_size + size) ≡ block.address + header_size + size =
            omega (arith, s.no_wrap) in
          rw (big, next)
            (
              size,
              record {
                enough = omega arith;
                covered = λ a. ground arith;
                used = λ a. ground arith;
                inside = h;
                sound =
                    cons
                      (record {
                        start = s.start;
                        whole = w;
                        above = s.above;
                        no_wrap = omega (arith, s.no_wrap);
                      })
                      (cons
                        (record {
                          start = omega (arith, s.start);
                          whole = omega (arith, s.whole);
                          above = omega (arith, s.above);
                          no_wrap = omega (arith, s.no_wrap);
                        })
                        nil);
              },
            )
    ]

-- The first block that fits has been taken.
pub record TakenFirst (blocks : List Block) (size address n : ℕ) (now : List Block) : Type 0 where
  pub enough : size ≤ n
  pub at : address % 16 ≡ 0
  pub covered : (a : ℕ) → covers now a ≡ covers blocks a
  pub used :
      (a : ℕ)
      → uses now a ≡ uses blocks a + one_if (leb address a && ltb a (address + header_size + n))
  pub was_free :
      (a : ℕ)
      → leb address a && ltb a (address + header_size + n) ≡ true
      → uses blocks a < covers blocks a
  pub sound : AllSound now

pub uses_le : (blocks : List Block) (a : ℕ) → uses blocks a ≤ covers blocks a
unfolding uses covers
uses_le [] a = omega arith
uses_le (block ∷ rest) a = ground (arith, uses_le rest a)

pub data FirstOutcome (blocks : List Block) (size : ℕ) (r : Option (ℕ × List Block)) : Type 0 where
  first :
      (address n : ℕ) (now : List Block)
      → r ≡ some (address, now)
      → TakenFirst blocks size address n now
      → FirstOutcome blocks size r
  none_fits : r ≡ none → FirstOutcome blocks size r

put_before_lem :
    (block : Block) (rest : List Block) (size : ℕ) (r : Option (ℕ × List Block))
    → Sound block
    → FirstOutcome rest size r
    → FirstOutcome (block ∷ rest) size (put_before block r)
unfolding covers uses
put_before_lem block rest size none s (first address n now e t) = absurd (ground arith)
put_before_lem block rest size (some x) s (none_fits e) = absurd (ground arith)
put_before_lem block rest size none s (none_fits e) = none_fits refl
put_before_lem block rest size (some (p, xs)) s (first address n now e t) =
    first address n (block ∷ now) (ap (put_before block) e) (record {
      enough = t.enough;
      at = t.at;
      covered = λ a. omega (arith, t.covered a);
      used = λ a. omega (arith, t.used a);
      was_free = λ a h. ground (arith, t.was_free a h);
      sound = cons s t.sound;
    })

Taken-here :
    (block : Block) (rest : List Block) (size n : ℕ) (now : List Block)
    → Sound block
    → AllSound rest
    → fits block size ≡ true
    → Taken block size n now
    → TakenFirst (block ∷ rest) size block.address n (now ++ rest)
unfolding covers uses
Taken-here block rest size n now s all fit t = record {
  enough = t.enough;
  at = s.start;
  covered = λ a. omega (arith, covers-append now rest a, t.covered a);
  used = λ a. ground (arith, uses-append now rest a, t.used a);
  was_free = λ a h. ground (arith, uses_le rest a, t.inside);
  sound = AllSound-append t.sound all;
}

pub take_first_lem :
    (blocks : List Block) (size : ℕ)
    → AllSound blocks
    → size % 16 ≡ 0
    → FirstOutcome blocks size (take_first blocks size)
unfolding take_first
take_first_lem [] size s w = none_fits refl
take_first_lem (block ∷ rest) size (cons s all) w = elim (Bool-cases (fits block size)) [
  | inr no_fit ↦
      rw no_fit
        (put_before_lem block rest size (take_first rest size) s (take_first_lem rest size all w))
  | inl fit ↦
      let (n, t) = take_lem block size s w (ground arith) in
      rw fit (
        first block.address n (take block size ++ rest) refl
          (Taken-here block rest size n _ s all fit t))
]
