-- ===== src/Process/Regions/Inv.antt =====
-- The invariant of the user regions of kernel/process.c.
use native.Mathlib.Decide.{dec_lt}
use kolibriarm.Base.{
  ℕ, ◌+◌, ◌^◌, ◌<◌, ◌≤◌, ◌≡◌, ◌≢◌, ◌⊎◌, none, some, get_or, length, arith, inl, inr,
}
use kolibriarm.Process.{Process, Region, cleared_region, max_user_regions}
use kolibriarm.Process.Regions.{user_region_end}

-- The i-th region.
abbrev pub region : Process → ℕ → Region
region p i = get_or p.user_regions i cleared_region

-- Two ranges have no address in common.
abbrev pub Apart : Region → Region → Type 0
Apart r x = (r.end ≤ x.start) ⊎ (x.end ≤ r.start)

pub record IsValid (p : Process) : Type 0 where
  pub eight : length p.user_regions ≡ max_user_regions
  pub counted : p.user_region_count ≤ max_user_regions
  pub sized :
      (i : ℕ)
      → i < p.user_region_count
      → ((region p i).start < (region p i).end) × ((region p i).end < 2 ^ 64)
  pub apart : (i j : ℕ) → i < j → j < p.user_region_count → Apart (region p i) (region p j)

-- Any two of the first regions, in either order.
pub Apart-any :
    {p : Process} (i j : ℕ)
    → IsValid p
    → i ≢ j
    → i < p.user_region_count
    → j < p.user_region_count
    → Apart (region p i) (region p j)
Apart-any i j v ne hi hj = elim (dec_lt i j) [
  | yes lt ↦ v.apart i j lt hj
  | no ge ↦ elim (v.apart j i (omega arith) hi) [ inl a ↦ inr a | inr b ↦ inl b ]
]

-- What `user_region_end` accepts, and the sum that it then stores.
pub user_region_end-some :
    (start size end : ℕ)
    → size < 2 ^ 64
    → user_region_end start size ≡ some end
    → (0 < size) × (end ≡ start + size) × (end < 2 ^ 64)
unfolding user_region_end
user_region_end-some start size end h e = ground arith

pub user_region_end_fits :
    (start size : ℕ)
    → 0 < size
    → start + size < 2 ^ 64
    → user_region_end start size ≡ some (start + size)
unfolding user_region_end
user_region_end_fits start size h k = ground arith

pub user_region_end-none :
    (start size : ℕ) → user_region_end start size ≡ none → (size ≡ 0) ⊎ (2 ^ 64 ≤ start + size)
unfolding user_region_end
user_region_end-none start size e = ground arith
