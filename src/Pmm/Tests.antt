-- ===== src/Pmm/Tests.antt =====
-- Runs of kernel/mm/pmm.c at QEMU's memory base, with ten pages.
use kolibriarm.Base.{ℕ, ◌+◌, ◌≡◌, refl, arith}
use kolibriarm.Pmm.{
  Pmm, init, reserve_range, alloc_page, alloc_pages, free_page, set_used, set_free, is_free,
  free_range,
}
use kolibriarm.Pmm.Pages.{taken}
use kolibriarm.Pmm.Inv.{IsValid}
use kolibriarm.Pmm.Ranges.{IsFresh, init-IsFresh}
use kolibriarm.Pmm.Alloc.{PageOutcome, alloc_page_lem}
use kolibriarm.Pmm.Runs.{RunOutcome, alloc_pages_lem}
use kolibriarm.Pmm.Free.{FreeOutcome, free_page_lem, free_page-alloc_page}
use kolibriarm.Pmm.Reserve.{Reserved, reserve_range_lem}

abbrev base : ℕ
base = 0x40000000

abbrev ten : Pmm
ten = init base 40960

fresh : IsFresh base 40960 ten
fresh = init-IsFresh base 40960 refl (omega arith)

ten-IsValid : IsValid ten
ten-IsValid = fresh.valid

alloc_page_lem_example : PageOutcome ten (alloc_page ten)
alloc_page_lem_example = alloc_page_lem ten ten-IsValid

alloc_pages_lem_example : RunOutcome ten 3 (alloc_pages ten 3)
alloc_pages_lem_example = alloc_pages_lem ten 3 ten-IsValid

free_page_lem_example : FreeOutcome ten (base + 8192) (free_page ten (base + 8192))
free_page_lem_example = free_page_lem ten (base + 8192) ten-IsValid (omega arith)

ten_pages : ten.free_pages ≡ 10
unfolding init free_range set_free is_free
ten_pages = refl

free_page-alloc_page_example :
    let (paddr, taken_out) = alloc_page ten in
    let back = free_page taken_out paddr in
    ((q : ℕ) → taken back.bitmap q ≡ taken ten.bitmap q) × (back.free_pages ≡ ten.free_pages)
free_page-alloc_page_example = free_page-alloc_page ten ten-IsValid (omega (arith, ten_pages))

reserve_range_lem_example : Reserved ten (base + 100) 5000 (reserve_range ten (base + 100) 5000)
reserve_range_lem_example =
    reserve_range_lem ten ten-IsValid (base + 100) 5000 (omega arith) (omega arith)

second_page : (alloc_page (alloc_page ten).1).0 ≡ base + 4096
unfolding init free_range set_free set_used is_free alloc_page
second_page = refl
