-- ===== src/Process/Resources.antt =====
-- `process_free_resources` of kernel/process.c. `free_table` stands for `vmm_free_table`, which gives
-- the pages of a page table back to the allocator.
pub mod Twice
use kolibriarm.Base.{
  ℕ, zero, suc, ◌+◌, ◌-◌, ◌/◌, ◌<◌, ◌≡◌, refl, Bool, true, false, ◌&&◌, not, List, ltb, ◌==◌,
  if◌then◌else◌, get_or, set, min, u64, complement64, bit_and, length, length-set, get_or-set_self,
  get_or-set_ne, arith, inl, inr, Bool-cases, ◌⊎◌, ap,
}
use kolibriarm.Pmm.{Pmm, page_size, free_page}
use kolibriarm.Process.{Process, Region, cleared_region, max_user_regions}

abbrev pub owned_pages : ℕ
owned_pages = 1

-- The test whose failure skips a region.
abbrev pub owns_pages : Region → Bool
owns_pages region = not (bit_and region.flags owned_pages == 0) && not (region.paddr == 0)

-- The loop over `off`, with `n` rounds left at most.
free_pages : ℕ → ℕ → ℕ → ℕ → Pmm → Pmm
free_pages zero off size paddr pmm = pmm
free_pages (suc n) off size paddr pmm =
    let rest =
      free_pages n (u64 (off + page_size)) size paddr (free_page pmm (u64 (paddr + off))) in
    if ltb off size then rest else pmm

-- `size / page_size + 1` rounds cover every offset below a size of at most 2 ^ 64 - 4096. Above it the
-- offset of the code wraps to 0 and its loop does not end; the model stops after those rounds.
pub free_region : Region → Pmm → Region × Pmm
unfolding free_pages
free_region region pmm =
    if owns_pages region
    then (
      record region { flags = bit_and region.flags (complement64 owned_pages); paddr = 0 },
      if ltb region.start region.end
          then free_pages ((region.end - region.start) / page_size + 1) 0
              (region.end - region.start) region.paddr pmm
          else pmm,
    )
    else (region, pmm)

pub free_regions : ℕ → ℕ → List Region → Pmm → List Region × Pmm
free_regions zero i regions pmm = (regions, pmm)
free_regions (suc n) i regions pmm =
    let step = free_region (get_or regions i cleared_region) pmm in
    free_regions n (i + 1) (set regions i step.0) step.1

module _ (free_table : ℕ → Pmm → Pmm) where
  pub free_resources : Process → Pmm → Process × Pmm
  unfolding free_regions free_region
  free_resources process pmm =
      let freed =
        free_regions (min process.user_region_count max_user_regions) 0 process.user_regions pmm in
      (
        record process { user_regions = freed.0; page_table = 0 },
        if process.page_table == 0 then freed.1 else free_table process.page_table freed.1,
      )
