-- ===== src/UserVm/Tests.antt =====
-- Runs of kernel/user_vm.c on a process with an empty page table, and with a region that is mapped.
use kolibriarm.Base.{
  ℕ, ◌+◌, ◌-◌, ◌*◌, ◌≡◌, ◌≢◌, refl, sym, ◌∙◌, true, ◌∷◌, replicate, arith, some, Status, ok,
  first_index,
}
use kolibriarm.Pmm.{Pmm, init, set_used, free_range, set_free, is_free, alloc_page}
use kolibriarm.Pmm.Inv.{set_used-IsValid, taken-used, fixed-used}
use kolibriarm.Pmm.Ranges.{IsFresh, init-IsFresh}
use kolibriarm.Vmm.{
  Vm, leaf_entry, map_range, map_from, map_page, next_table, new_table, zero_from, page_span,
  table_index, has, page_descriptor,
}
use kolibriarm.Vmm.Tree.{Tree}
use kolibriarm.Vmm.Root.{empty-Tree, empty_leaf}
use kolibriarm.Vmm.Entry.{has_zero, page_descriptor-Points}
use kolibriarm.Vmm.Unmap.{mapping, within, page_of}
use kolibriarm.Vmm.Rounds.{
  RoundsOutcome, filled, rolled_back, Filled, frame_entry, valid_part_valid,
}
use kolibriarm.Vmm.Range.{map_range_lem}
use kolibriarm.Process.{Process, Region, State, cleared_region}
use kolibriarm.Process.Regions.{find_user_region, user_region_end}
use kolibriarm.Process.Regions.Inv.{IsValid}
use kolibriarm.UserVm.{map_anonymous, map_physical, flags_to_vmm}
use kolibriarm.UserVm.Frames.{Vacant, AnonymousOutcome}
use kolibriarm.UserVm.Anonymous.{map_anonymous_lem}
use kolibriarm.UserVm.Physical.{Lost, map_physical_busy}

abbrev base : ℕ
base = 0x40000000

abbrev ten : Pmm
ten = init base 40960

abbrev start : Vm
start = record { pmm = set_used ten 0; memory = λ a. 0 }

fresh : IsFresh base 40960 ten
fresh = init-IsFresh base 40960 refl (omega arith)

start-Tree : Tree base start
start-Tree =
    let (same, total, _) = fixed-used 0 fresh.valid (omega (arith, fresh.capped)) in
    empty-Tree base start (λ j h. refl)
      (record {
        pages = set_used-IsValid 0 fresh.valid (omega (arith, fresh.capped));
        low = omega (arith, same, total, fresh.base_kept, fresh.capped);
        above = omega (arith, same, fresh.base_kept);
      })
      (
        0,
        omega (arith, total, fresh.capped),
        omega (arith, same, fresh.base_kept),
        taken-used 0 fresh.valid (omega (arith, fresh.capped)) 0,
      )

abbrev process : Process
process = record {
  pid = 7;
  name_storage = replicate 16 0;
  regs = replicate 31 0;
  sp = 0;
  pc = 0;
  pstate = 0;
  page_table = base;
  state = State.ready;
  exit_code = 0;
  next_user_vaddr = 0x100000000;
  user_regions = replicate 8 cleared_region;
  user_region_count = 0;
}

process-IsValid : IsValid process
process-IsValid = record {
  eight = refl;
  counted = omega arith;
  sized = λ i h. absurd (omega arith);
  apart = λ i j h k. absurd (omega arith);
}

start-Vacant : Vacant process start
start-Vacant w h k =
    let nothing : leaf_entry base w start.memory ≡ 0 =
      empty_leaf base start (λ j h. refl) (λ e. absurd (omega arith)) w in
    rw (nothing, has_zero) refl

map_anonymous_lem_example :
    AnonymousOutcome process 5000 0 start (map_anonymous process 0 5000 0 start)
map_anonymous_lem_example =
    map_anonymous_lem process 0 5000 0 start process-IsValid start-Tree start-Vacant (omega arith)
      (omega arith)

-- A process with a region of two pages, which are mapped.
abbrev image : Region
image = record { start = 0x200000000; end = 0x200002000; paddr = 0x40003000; flags = 0 }

abbrev with_image : Process
with_image = record process {
  user_regions = image ∷ replicate 7 cleared_region;
  user_region_count = 1;
}

abbrev mapped_state : Vm
mapped_state = (map_range base 0x200000000 0x40003000 8192 18 start).1

is_mapped : (map_range base 0x200000000 0x40003000 8192 18 start).0 ≡ ok
unfolding map_range map_from map_page next_table new_table zero_from page_span table_index has
    page_descriptor init free_range set_free set_used is_free alloc_page
is_mapped = refl

is_found : find_user_region with_image 0x200000000 8192 ≡ some image
unfolding find_user_region user_region_end first_index
is_found = refl

writable : flags_to_vmm 3 ≡ some 19
unfolding flags_to_vmm
writable = refl

mapped-Filled :
    (r : Status × Vm)
    → r.0 ≡ ok
    → RoundsOutcome 0x200000 2 0x40003 18 base start r
    → Filled 0x200000 2 0x40003 18 base start r.1
mapped-Filled r e (filled status f) = f
mapped-Filled r e (rolled_back status tree view why) = absurd (ground arith)

both_mapped : Filled 0x200000 2 0x40003 18 base start mapped_state
both_mapped = mapped-Filled _ is_mapped (
    map_range_lem base 0x200000000 0x40003000 8192 18 start start-Tree (omega arith) refl
      (omega arith) (omega arith))

no_hole : (w : ℕ) → within 0x200000 2 w ≡ true → mapping base mapped_state w ≢ 0
no_hole w inside z =
    (valid_part_valid (frame_entry 0x200000 0x40003 18 w)
        (page_descriptor-Points ((0x40003 + (page_of w - 0x200000)) * 4096) 18).valid).1
      (sym (both_mapped.view w ∙ rw inside refl) ∙ z)

map_physical_busy_example :
    Lost with_image 0x200000000 8192 mapped_state
      (map_physical with_image 0x200000000 0x40003000 8192 3 mapped_state)
map_physical_busy_example =
    map_physical_busy with_image 0x200000000 0x40003000 8192 3 19 image mapped_state
      both_mapped.tree (λ e. omega (arith, e), λ e. omega (arith, e), omega arith) refl
      (omega arith) (omega arith) writable is_found no_hole
