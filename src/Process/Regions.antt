-- ===== src/Process/Regions.antt =====
-- The user regions of kernel/process.c: half-open ranges of virtual addresses that a process may
-- touch.
pub mod Inv
pub mod Add
pub mod Alloc
pub mod Remove
pub mod Access
pub mod Undo
pub mod Mapping
mod Tests
use kolibriarm.Base.{
  ℕ, zero, suc, ◌+◌, ◌-◌, ◌^◌, Bool, true, false, ◌&&◌, ◌||◌, not, List, [], ◌∷◌, Option, none,
  some, ltb, leb, ◌==◌, if◌then◌else◌, get_or, set, Status, ok, failed, first_index, u64, u64_max,
  complement64, bit_and,
}
use kolibriarm.Process.{Process, Region, max_user_regions, user_mmap_limit, cleared_region}

-- `*end`, or `none` for -1.
unfoldable pub user_region_end : ℕ → ℕ → Option ℕ
user_region_end start size =
    if size == 0 || ltb (u64_max - size) start then none else some (u64 (start + size))

pub align_up : ℕ → ℕ → ℕ
align_up value alignment = bit_and (u64 (value + alignment - 1)) (complement64 (alignment - 1))

abbrev pub region_align : ℕ
region_align = 4096

abbrev pub overlaps : ℕ → ℕ → Region → Bool
overlaps start end region = ltb start region.end && ltb region.start end

abbrev pub is_exact : ℕ → ℕ → Region → Bool
is_exact start end region = region.start == start && region.end == end

abbrev pub encloses : ℕ → ℕ → Region → Bool
encloses start end region = leb region.start start && leb end region.end

-- The loops over `user_regions[0 .. user_region_count)` that stop at the first match.
abbrev pub find_region : (Region → Bool) → Process → Option ℕ
find_region test process = first_index test process.user_region_count process.user_regions

-- `found` is what the loop over the regions has found to overlap the range.
abbrev append_region : Process → ℕ → ℕ → Option ℕ → Status × Process
append_region process start end (some i) = (failed, process)
append_region process start end none = (
  ok,
  record process {
    user_regions =
        set process.user_regions process.user_region_count
          (record { start = start; end = end; paddr = 0; flags = 0 });
    user_region_count = process.user_region_count + 1;
  },
)

abbrev add_range : Process → ℕ → Option ℕ → Status × Process
add_range process start none = (failed, process)
add_range process start (some end) =
    append_region process start end (find_region (overlaps start end) process)

pub add_user_region : Process → ℕ → ℕ → Status × Process
add_user_region process start size =
    if leb max_user_regions process.user_region_count
    then (failed, process)
    else add_range process start (user_region_end start size)

abbrev finish_alloc : ℕ → ℕ → Process → Status × Process → Option ℕ × Process
finish_alloc start end process (failed, _) = (none, process)
finish_alloc start end process (ok, added) = (some start, record added { next_user_vaddr = end })

abbrev alloc_at : Process → ℕ → ℕ → Option ℕ → Option ℕ × Process
alloc_at process start aligned_size none = (none, process)
alloc_at process start aligned_size (some end) =
    if ltb start process.next_user_vaddr || ltb user_mmap_limit end
    then (none, process)
    else finish_alloc start end process (add_user_region process start aligned_size)

-- `*addr`, or `none` for -1.
pub alloc_user_region : Process → ℕ → Option ℕ × Process
alloc_user_region process size =
    let aligned_size = align_up size region_align in
    let start = align_up process.next_user_vaddr region_align in
    if size == 0 || ltb aligned_size size
    then (none, process)
    else alloc_at process start aligned_size (user_region_end start aligned_size)

abbrev map_found : Process → ℕ → ℕ → Option ℕ → Status × Process
map_found process paddr flags none = (failed, process)
map_found process paddr flags (some i) = (
  ok,
  record process {
    user_regions = set process.user_regions i (
        let region = get_or process.user_regions i cleared_region in
        record region { paddr = paddr; flags = flags });
  },
)

abbrev find_range : Process → ℕ → Option ℕ → Option ℕ
find_range process start none = none
find_range process start (some end) = find_region (is_exact start end) process

pub set_user_region_mapping : Process → ℕ → ℕ → ℕ → ℕ → Status × Process
set_user_region_mapping process start size paddr flags =
    map_found process paddr flags (find_range process start (user_region_end start size))

abbrev found_region : Process → Option ℕ → Option Region
found_region process none = none
found_region process (some i) = some (get_or process.user_regions i cleared_region)

unfoldable pub find_user_region : Process → ℕ → ℕ → Option Region
find_user_region process start size =
    found_region process (find_range process start (user_region_end start size))

-- The loop `for (j = i + 1; j < count; j++) user_regions[j - 1] = user_regions[j];`, with `n`
-- rounds left.
pub shift_down : ℕ → ℕ → List Region → List Region
shift_down zero j regions = regions
shift_down (suc n) j regions =
    shift_down n (j + 1) (set regions (j - 1) (get_or regions j cleared_region))

abbrev remove_found : Process → Option ℕ → Option Region × Process
remove_found process none = (none, process)
remove_found process (some i) = (
  some (get_or process.user_regions i cleared_region),
  record process {
    user_regions =
        set (shift_down (process.user_region_count - (i + 1)) (i + 1) process.user_regions)
          (process.user_region_count - 1) cleared_region;
    user_region_count = process.user_region_count - 1;
  },
)

-- The removed region, or `none` for -1.
pub remove_user_region_info : Process → ℕ → ℕ → Option Region × Process
remove_user_region_info process start size =
    remove_found process (find_range process start (user_region_end start size))

abbrev contains_range : Process → ℕ → Option ℕ → Bool
contains_range process start none = false
contains_range process start (some end) = elim (find_region (encloses start end) process) [
  | none ↦ false
  | some i ↦ true
]

unfoldable pub user_range_contains : Process → ℕ → ℕ → Bool
user_range_contains process start size =
    if size == 0 then true else contains_range process start (user_region_end start size)
