-- ===== src/UserVm.antt =====
-- kernel/user_vm.c: the mappings of a process, between its regions (Process.Regions), the page
-- allocator (Pmm) and the page tables (Vmm). Each function takes and returns the process and the state
-- of the tables, which holds the allocator's.
pub mod Kept
pub mod Frames
pub mod Anonymous
pub mod Physical
mod Tests
use kolibriarm.Base.{
  ℕ, zero, suc, ◌+◌, ◌-◌, ◌*◌, ◌/◌, ◌^◌, Bool, true, false, ◌&&◌, ◌||◌, not, Option, none, some,
  ltb, leb, ◌==◌, if◌then◌else◌, Status, ok, failed, bit_and, bit_or, u64, u64_max, complement64,
}
use kolibriarm.Pmm.{Pmm, page_size, alloc_pages, free_page}
use kolibriarm.Vmm.{Vm, flag_write, flag_exec, flag_user, map_range, unmap_range}
use kolibriarm.Process.{Process, Region}
use kolibriarm.Process.Regions.{
  alloc_user_region, remove_user_region_info, set_user_region_mapping, find_user_region,
}
use kolibriarm.Process.Resources.{owned_pages}

abbrev pub prot_read : ℕ
prot_read = 1

abbrev pub prot_write : ℕ
prot_write = 2

abbrev pub prot_exec : ℕ
prot_exec = 4

abbrev pub flag_read : ℕ
flag_read = 1

-- The address, USER_VM_ERR_NOMEM or USER_VM_ERR_INVAL.
pub data MapResult : Type 0 where
  address : ℕ → MapResult
  nomem inval : MapResult

pub page_align_up : ℕ → ℕ
page_align_up value =
    if value == 0 || ltb (u64_max - (page_size - 1)) value
    then 0
    else bit_and (u64 (value + page_size - 1)) (complement64 (page_size - 1))

abbrev pub is_set : ℕ → ℕ → Bool
is_set flags mask = not (bit_and flags mask == 0)

abbrev pub access_flags : ℕ → ℕ
access_flags flags =
    let result =
      if is_set flags prot_write
      then bit_or flag_user (bit_or flag_read flag_write)
      else if is_set flags prot_read
      then bit_or flag_user flag_read
      else flag_user in
    if is_set flags prot_exec then bit_or result flag_exec else result

-- `*vmm_flags`, or `none` for -1.
pub flags_to_vmm : ℕ → Option ℕ
flags_to_vmm flags =
    if is_set flags (complement64 (prot_read + prot_write + prot_exec))
    then none
    else some (access_flags (if flags == 0 then prot_read + prot_write else flags))

-- The rounds from an offset on, with n left.
pub free_from : ℕ → ℕ → ℕ → Pmm → Pmm
free_from zero offset paddr pmm = pmm
free_from (suc n) offset paddr pmm =
    free_from n (u64 (offset + page_size)) paddr (free_page pmm (u64 (paddr + offset)))

-- As many rounds as offsets below the size.
abbrev pub free_page_range : ℕ → ℕ → Vm → Vm
free_page_range paddr size s = record s {
  pmm = free_from ((size + (page_size - 1)) / page_size) 0 paddr s.pmm;
}

-- Undoing an anonymous mapping, with the error to return: its pages are unmapped, its region
-- removed and its frames freed.
abbrev pub undo_anonymous : MapResult → ℕ → ℕ → ℕ → Process → Vm → MapResult × Process × Vm
undo_anonymous error addr size paddr process s = (
  error,
  (remove_user_region_info process addr size).1,
  free_page_range paddr size (unmap_range process.page_table addr size s).1,
)

abbrev pub finish_anonymous : ℕ → ℕ → ℕ → Vm → Process → Status × Process → MapResult × Process × Vm
finish_anonymous addr size paddr s process (failed, _) =
    undo_anonymous inval addr size paddr process s
finish_anonymous addr size paddr s process (ok, done) = (address addr, done, s)

abbrev pub own_mapping : ℕ → ℕ → ℕ → Process → Status × Vm → MapResult × Process × Vm
own_mapping addr size paddr process (failed, s) = undo_anonymous nomem addr size paddr process s
own_mapping addr size paddr process (ok, s) =
    finish_anonymous addr size paddr s process
      (set_user_region_mapping process addr size paddr owned_pages)

abbrev pub map_frames : ℕ → ℕ → ℕ → Process → Vm → ℕ × Pmm → MapResult × Process × Vm
map_frames addr size vmm_flags process s (paddr, left) =
    let taken = record s { pmm = left } in
    if paddr == 0
    then (nomem, (remove_user_region_info process addr size).1, taken)
    else own_mapping addr size paddr process
        (map_range process.page_table addr paddr size vmm_flags taken)

abbrev pub map_region : ℕ → ℕ → Vm → Option ℕ × Process → MapResult × Process × Vm
map_region size vmm_flags s (none, process) = (inval, process, s)
map_region size vmm_flags s (some addr, process) =
    map_frames addr size vmm_flags process s (alloc_pages s.pmm (size / page_size))

abbrev pub map_with : ℕ → Process → Vm → Option ℕ → MapResult × Process × Vm
map_with size process s none = (inval, process, s)
map_with size process s (some vmm_flags) =
    map_region size vmm_flags s (alloc_user_region process size)

pub map_anonymous : Process → ℕ → ℕ → ℕ → Vm → MapResult × Process × Vm
map_anonymous process hint size flags s =
    if process.page_table == 0 || not (hint == 0) || page_align_up size == 0
    then (inval, process, s)
    else map_with (page_align_up size) process s (flags_to_vmm flags)

abbrev pub drop_region : ℕ → ℕ → ℕ → Vm → Option Region × Process → Status × Process × Vm
drop_region addr size paddr s (none, process) = (failed, process, s)
drop_region addr size paddr s (some _, process) = (ok, process, free_page_range paddr size s)

abbrev pub unmapped : ℕ → ℕ → ℕ → Process → Status × Vm → Status × Process × Vm
unmapped addr size paddr process (failed, s) = (failed, process, s)
unmapped addr size paddr process (ok, s) =
    drop_region addr size paddr s (remove_user_region_info process addr size)

abbrev pub unmap_found : ℕ → ℕ → Process → Vm → Option Region → Status × Process × Vm
unmap_found addr size process s none = (failed, process, s)
unmap_found addr size process s (some region) =
    if not (is_set region.flags owned_pages) || region.paddr == 0
    then (failed, process, s)
    else unmapped addr size region.paddr process (unmap_range process.page_table addr size s)

-- `failed` is USER_VM_ERR_INVAL.
pub unmap_anonymous : Process → ℕ → ℕ → Vm → Status × Process × Vm
unmap_anonymous process addr size s =
    if process.page_table == 0 || page_align_up size == 0
    then (failed, process, s)
    else unmap_found addr (page_align_up size) process s
        (find_user_region process addr (page_align_up size))

abbrev pub record_physical : ℕ → ℕ → Process → Vm → Status × Process → Status × Process × Vm
record_physical vaddr size process s (failed, _) =
    (failed, process, (unmap_range process.page_table vaddr size s).1)
record_physical vaddr size process s (ok, done) = (ok, done, s)

abbrev pub physical_mapped : ℕ → ℕ → ℕ → Process → Status × Vm → Status × Process × Vm
physical_mapped vaddr paddr size process (failed, s) =
    (failed, process, (unmap_range process.page_table vaddr size s).1)
physical_mapped vaddr paddr size process (ok, s) =
    record_physical vaddr size process s (set_user_region_mapping process vaddr size paddr 0)

abbrev pub map_physical_with :
    ℕ → ℕ → ℕ → Process → Vm → Option ℕ → Option Region → Status × Process × Vm
map_physical_with vaddr paddr size process s (some vmm_flags) (some _) =
    physical_mapped vaddr paddr size process
      (map_range process.page_table vaddr paddr size vmm_flags s)
map_physical_with vaddr paddr size process s (some vmm_flags) none = (failed, process, s)
map_physical_with vaddr paddr size process s none _ = (failed, process, s)

pub map_physical : Process → ℕ → ℕ → ℕ → ℕ → Vm → Status × Process × Vm
map_physical process vaddr paddr size flags s =
    if process.page_table == 0 || vaddr == 0 || paddr == 0 || size == 0
    then (failed, process, s)
    else map_physical_with vaddr paddr size process s (flags_to_vmm flags)
        (find_user_region process vaddr size)
