-- ===== src/Process/Resources/Twice.antt =====
-- `process_free_resources` of kernel/process.c, called twice.
use native.Mathlib.Decide.{ℕ_discrete}
use kolibriarm.Base.{
  ℕ, zero, suc, ◌+◌, ◌<◌, ◌≤◌, ◌≡◌, refl, ap, ◌∙◌, subst, false, List, [], ◌∷◌, if◌then◌else◌,
  get_or, set, min, bit_and, length, length-set, get_or-set_self, get_or-set_ne, arith, inl, inr,
  Bool-cases, complement64,
}
use kolibriarm.Pmm.{Pmm}
use kolibriarm.Process.{Process, Region, cleared_region, max_user_regions}
use kolibriarm.Process.Resources.{
  owned_pages, owns_pages, free_region, free_regions, free_resources,
}

-- The region without its pages.
abbrev pub released : Region → Region
released r =
    if owns_pages r
    then record r { flags = bit_and r.flags (complement64 owned_pages); paddr = 0 }
    else r

free_region-released : (r : Region) (pmm : Pmm) → (free_region r pmm).0 ≡ released r
unfolding free_region
free_region-released r pmm = elim (Bool-cases (owns_pages r)) [
  | inl e ↦ rw e refl
  | inr e ↦ rw e refl
]

owns_pages-released : (r : Region) → owns_pages (released r) ≡ false
owns_pages-released r = elim (Bool-cases (owns_pages r)) [
  | inl e ↦ rw e (ground arith)
  | inr e ↦ rw e e
]

set-get_or : (rs : List Region) (i : ℕ) → set rs i (get_or rs i cleared_region) ≡ rs
set-get_or [] i = refl
set-get_or (r ∷ rs) zero = refl
set-get_or (r ∷ rs) (suc i) = ap (λ xs. r ∷ xs) (set-get_or rs i)

-- A region that has been released is so after the loop, whatever the loop did before.
owns_pages-free_regions :
    (n i j : ℕ) (rs : List Region) (pmm : Pmm)
    → i + n ≤ length rs
    → j < i + n
    → (j < i → owns_pages (get_or rs j cleared_region) ≡ false)
    → owns_pages (get_or (free_regions n i rs pmm).0 j cleared_region) ≡ false
unfolding free_regions
owns_pages-free_regions zero i j rs pmm h k before = before (omega arith)
owns_pages-free_regions (suc n) i j rs pmm h k before =
    owns_pages-free_regions n (i + 1) j (set rs i step.0) step.1
      (omega (arith, length-set rs i step.0)) (omega arith)
      (λ l. elim (ℕ_discrete i j) [
        | yes same ↦
            subst (λ m. owns_pages (get_or (set rs i step.0) m cleared_region) ≡ false) same
              (ap owns_pages (
                  get_or-set_self rs i step.0 cleared_region (omega arith)
                  ∙ free_region-released (get_or rs i cleared_region) pmm)
                ∙ owns_pages-released (get_or rs i cleared_region))
        | no ne ↦
            ap owns_pages (get_or-set_ne rs i j step.0 cleared_region ne) ∙ before (omega arith)
      ])
  where
    step : Region × Pmm
    step = free_region (get_or rs i cleared_region) pmm

length-free_regions :
    (n i : ℕ) (rs : List Region) (pmm : Pmm) → length (free_regions n i rs pmm).0 ≡ length rs
unfolding free_regions
length-free_regions zero i rs pmm = refl
length-free_regions (suc n) i rs pmm = length-free_regions n (i + 1) _ _ ∙ length-set rs i _

free_regions_idle :
    (n i : ℕ) (rs : List Region) (pmm : Pmm)
    → ((j : ℕ) → i ≤ j → j < i + n → owns_pages (get_or rs j cleared_region) ≡ false)
    → free_regions n i rs pmm ≡ (rs, pmm)
unfolding free_regions free_region
free_regions_idle zero i rs pmm h = refl
free_regions_idle (suc n) i rs pmm h =
    rw (h i (omega arith) (omega arith), set-get_or rs i)
      (free_regions_idle n (i + 1) rs pmm (λ j k l. h j (omega arith) (omega arith)))

module _ (free_table : ℕ → Pmm → Pmm) where
  -- After `process_free_resources` on a process with eight region slots, no region within the count
  -- owns pages, the page table is null, and a second call changes neither the process nor the
  -- allocator.
  pub free_resources_twice :
      (p : Process) (pmm : Pmm)
      → length p.user_regions ≡ max_user_regions
      → ((j : ℕ)
          → j < min p.user_region_count max_user_regions
          → owns_pages (get_or (free_resources free_table p pmm).0.user_regions j cleared_region)
            ≡ false)
        × ((free_resources free_table p pmm).0.page_table ≡ 0)
        × (free_resources free_table
              (free_resources free_table p pmm).0
              (free_resources free_table p pmm).1
            ≡ free_resources free_table p pmm)
  unfolding free_resources
  free_resources_twice p pmm e = (none_left, refl, again)
    where
      n : ℕ
      n = min p.user_region_count max_user_regions

      none_left :
          (j : ℕ)
          → j < n
          → owns_pages (get_or (free_resources free_table p pmm).0.user_regions j cleared_region)
            ≡ false
      none_left j h =
          owns_pages-free_regions n 0 j p.user_regions pmm (omega (arith, e)) (omega arith)
            (λ l. absurd (omega arith))

      again :
          free_resources free_table
            (free_resources free_table p pmm).0
            (free_resources free_table p pmm).1
          ≡ free_resources free_table p pmm
      again =
          ap
            (λ x. (
              record (free_resources free_table p pmm).0 { user_regions = x.0; page_table = 0 },
              x.1,
            ))
            (free_regions_idle n 0 (free_resources free_table p pmm).0.user_regions
              (free_resources free_table p pmm).1 (λ j k l. none_left j (omega arith)))
