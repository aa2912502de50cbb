-- ===== src/Process/Regions/Tests.antt =====
-- User regions of kernel/process.c at concrete addresses.
use kolibriarm.Base.{
  ℕ, ◌<◌, ◌≡◌, refl, ◌∷◌, some, ok, failed, replicate, arith, first_index, true, ◌⊎◌, ◌↔◌, zero,
  suc, get_or, ◌^◌,
}
use kolibriarm.Process.{Process, State, cleared_region}
use kolibriarm.Process.Regions.{
  user_region_end, align_up, add_user_region, alloc_user_region, remove_user_region_info,
  user_range_contains,
}
use kolibriarm.Process.Regions.Inv.{IsValid}
use kolibriarm.Process.Regions.Add.{AddOutcome, add_user_region_lem}
use kolibriarm.Process.Regions.Alloc.{AllocOutcome, alloc_user_region_lem}
use kolibriarm.Process.Regions.Remove.{RemoveOutcome, remove_user_region_info_lem}
use kolibriarm.Process.Regions.Access.{Inside, user_range_contains_iff}

-- A slot as the loader leaves it, and the process that `process_init` makes of it.
abbrev fresh : Process
fresh = record {
  pid = 7;
  name_storage = replicate 16 0;
  regs = replicate 31 0;
  sp = 0;
  pc = 0;
  pstate = 0;
  page_table = 0;
  state = State.ready;
  exit_code = 0;
  next_user_vaddr = 0x100000000;
  user_regions = replicate 8 cleared_region;
  user_region_count = 0;
}

abbrev image : Process
image = record fresh {
  user_regions =
      record { start = 0x400000; end = 0x402000; paddr = 0; flags = 0 }
      ∷ replicate 7 cleared_region;
  user_region_count = 1;
}

image_sized :
    (i : ℕ)
    → i < image.user_region_count
    → ((get_or image.user_regions i cleared_region).start
        < (get_or image.user_regions i cleared_region).end)
      × ((get_or image.user_regions i cleared_region).end < 2 ^ 64)
image_sized zero h = (omega arith, omega arith)
image_sized (suc i) h = absurd (omega arith)

image-IsValid : IsValid image
image-IsValid = record {
  eight = refl;
  counted = omega arith;
  sized = image_sized;
  apart = λ i j h k. absurd (omega arith);
}

add_user_region_lem_example : AddOutcome image 0x800000 4096 (add_user_region image 0x800000 4096)
add_user_region_lem_example = add_user_region_lem image 0x800000 4096 image-IsValid (omega arith)

alloc_user_region_lem_example : AllocOutcome image 5000 (alloc_user_region image 5000)
alloc_user_region_lem_example =
    alloc_user_region_lem image 5000 image-IsValid (omega arith) (omega arith)

remove_user_region_info_lem_example :
    RemoveOutcome image 0x400000 8192 (remove_user_region_info image 0x400000 8192)
remove_user_region_info_lem_example =
    remove_user_region_info_lem image 0x400000 8192 image-IsValid (omega arith)

user_range_contains_iff_example :
    (user_range_contains image 0x400100 16 ≡ true) ↔ ((◌≡◌ {A = ℕ} 16 0) ⊎ Inside image 0x400100 16)
user_range_contains_iff_example =
    user_range_contains_iff image 0x400100 16 image-IsValid (omega arith)

stack_added : (add_user_region image 0x800000 4096).0 ≡ ok
unfolding add_user_region user_region_end first_index
stack_added = refl

overlap_refused : (add_user_region image 0x401fff 4096).0 ≡ failed
unfolding add_user_region user_region_end first_index
overlap_refused = refl

mmap_address : (alloc_user_region image 5000).0 ≡ some 0x100000000
unfolding alloc_user_region add_user_region user_region_end align_up first_index
mmap_address = refl
