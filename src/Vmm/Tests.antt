-- ===== src/Vmm/Tests.antt =====
-- Runs of kernel/mm/vmm.c with an empty table in the first of ten pages of QEMU's memory.
use kolibriarm.Base.{ok, ℕ, ◌≡◌, refl, arith}
use kolibriarm.Pmm.{Pmm, init, set_used, free_range, set_free, is_free, alloc_page}
use kolibriarm.Pmm.Inv.{IsValid, set_used-IsValid, taken-used, fixed-used}
use kolibriarm.Pmm.Ranges.{IsFresh, init-IsFresh}
use kolibriarm.Vmm.{
  Memory, Vm, map_page, map_range, unmap_range, map_from, next_table, new_table, zero_from,
  page_span, table_index, has, page_descriptor,
}
use kolibriarm.Vmm.Tree.{Tree, Owned}
use kolibriarm.Vmm.Root.{Fitting, RootOutcome, empty-Tree, new_table_lem}
use kolibriarm.Vmm.Map.{MapOutcome, map_page_lem}
use kolibriarm.Vmm.Release.{unmap_range-map_range}
use kolibriarm.Vmm.Unmap.{mapping}
use kolibriarm.Vmm.Rounds.{RoundsOutcome}
use kolibriarm.Vmm.Range.{map_range_lem}

abbrev base : ℕ
base = 0x40000000

abbrev ten : Pmm
ten = init base 40960

abbrev zeros : Memory
zeros = λ a. 0

abbrev start : Vm
start = record { pmm = set_used ten 0; memory = zeros }

fresh : IsFresh base 40960 ten
fresh = init-IsFresh base 40960 refl (omega arith)

used-IsValid : IsValid (set_used ten 0)
used-IsValid = set_used-IsValid 0 fresh.valid (omega (arith, fresh.capped))

root-Owned_example : Owned (set_used ten 0) base
root-Owned_example =
    let (same, total, _) = fixed-used 0 fresh.valid (omega (arith, fresh.capped)) in
    (
      0,
      omega (arith, total, fresh.capped),
      omega (arith, same, fresh.base_kept),
      taken-used 0 fresh.valid (omega (arith, fresh.capped)) 0,
    )

ten-Fitting : Fitting ten
ten-Fitting = record {
  pages = fresh.valid;
  low = omega (arith, fresh.base_kept, fresh.capped);
  above = omega (arith, fresh.base_kept);
}

start-Tree : Tree base start
start-Tree =
    let (same, total, _) = fixed-used 0 fresh.valid (omega (arith, fresh.capped)) in
    empty-Tree base start (λ j h. refl)
      (record {
        pages = used-IsValid;
        low = omega (arith, same, total, fresh.base_kept, fresh.capped);
        above = omega (arith, same, fresh.base_kept);
      })
      root-Owned_example

new_table_lem_example :
    RootOutcome
      (record { pmm = ten; memory = λ a. 7 })
      (new_table (record { pmm = ten; memory = λ a. 7 }))
new_table_lem_example = new_table_lem (record { pmm = ten; memory = λ a. 7 }) ten-Fitting

map_page_lem_example :
    MapOutcome base 0x200000000 0x40003000 18 start (map_page base 0x200000000 0x40003000 18 start)
map_page_lem_example = map_page_lem base 0x200000000 0x40003000 18 start start-Tree

map_range_lem_example :
    RoundsOutcome 0x200000 3 0x40003 18 base start
      (map_range base 0x200000010 0x40003010 8192 18 start)
map_range_lem_example =
    map_range_lem base 0x200000010 0x40003010 8192 18 start start-Tree (omega arith) refl
      (omega arith) (omega arith)

is_mapped : (map_range base 0x200000010 0x40003010 8192 18 start).0 ≡ ok
unfolding map_range map_from map_page next_table new_table zero_from page_span table_index has
    page_descriptor init free_range set_free set_used is_free alloc_page
is_mapped = refl

unmap_range-map_range_example :
    let mapped_state = (map_range base 0x200000010 0x40003010 8192 18 start).1 in
    let r = unmap_range base 0x200000010 8192 mapped_state in
    (r.0 ≡ ok) × ((w : ℕ) → mapping base r.1 w ≡ mapping base start w)
unmap_range-map_range_example =
    unmap_range-map_range base 0x200000010 0x40003010 8192 18 start start-Tree (omega arith) refl
      (omega arith) (omega arith) is_mapped
