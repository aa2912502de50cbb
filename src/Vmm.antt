-- ===== src/Vmm.antt =====
-- kernel/mm/vmm.c: the page tables of a process, four levels of 512 entries of eight bytes in pages of
-- the allocator. Memory is a function from the address of a word to the word; a table is its address,
-- and a null pointer is 0 or, as a result, `none`. The state is the allocator's and the memory's.
pub mod Memory
pub mod Entry
pub mod Walk
pub mod Tree
pub mod Root
pub mod Next
pub mod Leaf
pub mod Grow
pub mod Map
pub mod Unmap
pub mod Rounds
pub mod Range
pub mod Release
mod Tests
use kolibriarm.Base.{
  ℕ, zero, suc, ◌+◌, ◌-◌, ◌*◌, ◌/◌, ◌^◌, Bool, true, false, ◌&&◌, ◌||◌, not, Option, none, some,
  ltb, leb, ◌==◌, if◌then◌else◌, Status, ok, failed, bit_and, bit_or, u64, u64_max, sub64,
  complement64,
}
use kolibriarm.Pmm.{Pmm, page_size, alloc_page, free_page}

abbrev pub Memory : Type 0
Memory = ℕ → ℕ

abbrev pub store : Memory → ℕ → ℕ → Memory
store m address value = λ a. if a == address then value else m a

-- The address of `table[index]`.
abbrev pub entry_of : ℕ → ℕ → ℕ
entry_of table index = table + 8 * index

pub record Vm : Type 0 where
  pub pmm : Pmm
  pub memory : Memory

abbrev pub table_entries : ℕ
table_entries = 512

abbrev pub desc_valid : ℕ
desc_valid = 1

abbrev pub desc_table : ℕ
desc_table = 2

abbrev pub desc_page : ℕ
desc_page = 2

abbrev pub desc_af : ℕ
desc_af = 2 ^ 10

abbrev pub desc_sh_inner : ℕ
desc_sh_inner = 3 * 2 ^ 8

abbrev pub desc_ap_ro : ℕ
desc_ap_ro = 2 ^ 7

abbrev pub desc_ap_user : ℕ
desc_ap_user = 2 ^ 6

abbrev pub desc_uxn : ℕ
desc_uxn = 2 ^ 54

abbrev pub desc_pxn : ℕ
desc_pxn = 2 ^ 53

abbrev pub desc_attr_device : ℕ
desc_attr_device = 2 ^ 2

abbrev pub desc_addr_mask : ℕ
desc_addr_mask = 0x0000fffffffff000

abbrev pub flag_write : ℕ
flag_write = 2

abbrev pub flag_exec : ℕ
flag_exec = 4

abbrev pub flag_device : ℕ
flag_device = 8

abbrev pub flag_user : ℕ
flag_user = 16

abbrev pub page_align_down : ℕ → ℕ
page_align_down value = bit_and value (complement64 (page_size - 1))

abbrev pub page_align_up : ℕ → ℕ
page_align_up value = bit_and (u64 (value + page_size - 1)) (complement64 (page_size - 1))

-- `*span`, or `none` for -1.
unfoldable pub page_span : ℕ → ℕ → Option ℕ
page_span offset size =
    let end = u64 (offset + size) in
    if size == 0 || leb page_size offset
    then none
    else if ltb (u64_max - offset) size
    then none
    else if not (bit_and end (page_size - 1) == 0) && ltb (u64_max - (page_size - 1)) end
    then none
    else some (page_align_up end)

unfoldable pub table_index : ℕ → ℕ → ℕ
table_index vaddr level = bit_and (vaddr / 2 ^ (39 - level * 9)) 0x1ff

-- The rounds from index i on.
unfoldable pub zero_from : ℕ → ℕ → ℕ → Memory → Memory
zero_from zero i table m = m
zero_from (suc n) i table m = zero_from n (i + 1) table (store m (entry_of table i) 0)

abbrev pub zero_table : ℕ → Memory → Memory
zero_table table m = zero_from table_entries 0 table m

abbrev zeroed : Memory → ℕ × Pmm → Option ℕ × Vm
zeroed m (paddr, left) =
    if paddr == 0
    then (none, record { pmm = left; memory = m })
    else (some paddr, record { pmm = left; memory = zero_table paddr m })

unfoldable pub new_table : Vm → Option ℕ × Vm
new_table s = zeroed s.memory (alloc_page s.pmm)

unfoldable pub has : ℕ → ℕ → Bool
has entry mask = not (bit_and entry mask == 0)

abbrev pub address_in : ℕ → ℕ
address_in entry = bit_and entry desc_addr_mask

-- The loop over the entries from index i on; `free_child` is the call for the next level.
free_entries : (ℕ → Pmm → Pmm) → ℕ → ℕ → ℕ → Memory → Pmm → Pmm
free_entries free_child zero i table m pmm = pmm
free_entries free_child (suc n) i table m pmm =
    let entry = m (entry_of table i) in
    free_entries free_child n (i + 1) table m (
      if has entry desc_valid && has entry desc_table
      then free_child (address_in entry) pmm
      else pmm)

-- `free_table_level` at level 3 - d. Freeing a page leaves its words as they are.
pub free_level : ℕ → Memory → ℕ → Pmm → Pmm
unfolding free_entries
free_level zero m table pmm = if table == 0 then pmm else free_page pmm table
free_level (suc d) m table pmm =
    let children = free_entries (free_level d m) table_entries 0 table m pmm in
    if table == 0 then pmm else free_page children table

pub free_table : Vm → ℕ → Vm
free_table s pgd = record s { pmm = free_level 3 s.memory pgd s.pmm }

abbrev pub table_descriptor : ℕ → ℕ
table_descriptor child = bit_or (bit_or (bit_and child desc_addr_mask) desc_valid) desc_table

abbrev link : ℕ → Option ℕ × Vm → Option ℕ × Vm
link address (none, s) = (none, s)
link address (some child, s) =
    (some child, record s { memory = store s.memory address (table_descriptor child) })

-- A pointer to a table, `none` if it is null.
abbrev pub non_null : ℕ → Option ℕ
non_null table = if table == 0 then none else some table

unfoldable pub next_table : ℕ → ℕ → Vm → Option ℕ × Vm
next_table table index s =
    let entry = s.memory (entry_of table index) in
    if has entry desc_valid
    then if has entry desc_table then (non_null (address_in entry), s) else (none, s)
    else link (entry_of table index) (new_table s)

unfoldable pub page_descriptor : ℕ → ℕ → ℕ
page_descriptor paddr flags =
    let base =
      bit_or (bit_or (bit_or (bit_and paddr desc_addr_mask) desc_valid) desc_page) desc_af in
    let kind =
      if has flags flag_device
      then bit_or (bit_or (bit_or base desc_attr_device) desc_uxn) desc_pxn
      else bit_or base desc_sh_inner in
    let write = if has flags flag_write then kind else bit_or kind desc_ap_ro in
    let user = if has flags flag_user then bit_or write desc_ap_user else write in
    if not (has flags flag_exec)
    then bit_or (bit_or user desc_uxn) desc_pxn
    else if has flags flag_user
    then user
    else bit_or user desc_uxn

abbrev is_aligned : ℕ → Bool
is_aligned address = bit_and address (page_size - 1) == 0

abbrev pub map_leaf : ℕ → ℕ → ℕ → Option ℕ × Vm → Status × Vm
map_leaf vaddr paddr flags (none, s) = (failed, s)
map_leaf vaddr paddr flags (some level3, s) =
    let address = entry_of level3 (table_index vaddr 3) in
    if has (s.memory address) desc_valid
    then (failed, s)
    else (ok, record s { memory = store s.memory address (page_descriptor paddr flags) })

-- `next_table` at that level, unless the table above it is missing.
abbrev pub descend : ℕ → ℕ → Option ℕ × Vm → Option ℕ × Vm
descend vaddr level (none, s) = (none, s)
descend vaddr level (some table, s) = next_table table (table_index vaddr level) s

unfoldable pub map_page : ℕ → ℕ → ℕ → ℕ → Vm → Status × Vm
map_page pgd vaddr paddr flags s =
    if pgd == 0 || not (is_aligned vaddr) || not (is_aligned paddr)
    then (failed, s)
    else map_leaf vaddr paddr flags
        (descend vaddr 2 (descend vaddr 1 (descend vaddr 0 (some pgd, s))))

-- The loop with n levels left; `none` for a null pointer.
pub leaf_from : ℕ → ℕ → ℕ → ℕ → Memory → Option ℕ
leaf_from zero level vaddr table m = non_null table
leaf_from (suc n) level vaddr table m =
    let entry = m (entry_of table (table_index vaddr level)) in
    let rest = leaf_from n (level + 1) vaddr (address_in entry) m in
    if has entry desc_valid && has entry desc_table then rest else none

abbrev pub leaf_table : ℕ → ℕ → Memory → Option ℕ
leaf_table pgd vaddr m = if pgd == 0 then none else leaf_from 3 0 vaddr pgd m

abbrev pub clear_leaf : ℕ → Vm → Option ℕ → Status × Vm
clear_leaf vaddr s none = (failed, s)
clear_leaf vaddr s (some level3) =
    let address = entry_of level3 (table_index vaddr 3) in
    if has (s.memory address) desc_valid
    then (ok, record s { memory = store s.memory address 0 })
    else (failed, s)

pub unmap_page : ℕ → ℕ → Vm → Status × Vm
unmap_page pgd vaddr s =
    if pgd == 0 || not (is_aligned vaddr)
    then (failed, s)
    else clear_leaf vaddr s (leaf_table pgd vaddr s.memory)

-- The rounds that undo a mapping, from offset `rollback` on.
pub undo_from : ℕ → ℕ → ℕ → ℕ → Vm → Vm
undo_from zero rollback pgd vaddr s = s
undo_from (suc n) rollback pgd vaddr s =
    undo_from n (rollback + page_size) pgd vaddr (unmap_page pgd (u64 (vaddr + rollback)) s).1

-- The rounds from offset `mapped` on.
unfoldable pub map_from : ℕ → ℕ → ℕ → ℕ → ℕ → ℕ → Vm → Status × Vm
map_from zero mapped pgd vaddr paddr flags s = (ok, s)
map_from (suc n) mapped pgd vaddr paddr flags s =
    let (status, left) = map_page pgd (u64 (vaddr + mapped)) (u64 (paddr + mapped)) flags s in
    elim status [
      | ok ↦ map_from n (mapped + page_size) pgd vaddr paddr flags left
      | failed ↦ (failed, undo_from (mapped / page_size) 0 pgd vaddr left)
    ]

abbrev map_span : ℕ → ℕ → ℕ → ℕ → Vm → Option ℕ → Status × Vm
map_span pgd vaddr paddr flags s none = (failed, s)
map_span pgd vaddr paddr flags s (some end) =
    if ltb (u64_max - end) vaddr || ltb (u64_max - end) paddr
    then (failed, s)
    else map_from (end / page_size) 0 pgd vaddr paddr flags s

-- `(vaddr ^ paddr) & 0xfff` is not 0 exactly if the offsets in the pages differ.
unfoldable pub map_range : ℕ → ℕ → ℕ → ℕ → ℕ → Vm → Status × Vm
map_range pgd vaddr paddr size flags s =
    let same_offset = bit_and vaddr (page_size - 1) == bit_and paddr (page_size - 1) in
    if pgd == 0 || not same_offset
    then (failed, s)
    else if size == 0
    then (ok, s)
    else map_span pgd (page_align_down vaddr) (page_align_down paddr) flags s
        (page_span (sub64 vaddr (page_align_down vaddr)) size)

pub unmap_from : ℕ → ℕ → ℕ → ℕ → Vm → Status × Vm
unmap_from zero unmapped pgd vaddr s = (ok, s)
unmap_from (suc n) unmapped pgd vaddr s =
    let (status, left) = unmap_page pgd (u64 (vaddr + unmapped)) s in
    elim status [
      | ok ↦ unmap_from n (unmapped + page_size) pgd vaddr left
      | failed ↦ (failed, left)
    ]

abbrev unmap_span : ℕ → ℕ → Vm → Option ℕ → Status × Vm
unmap_span pgd vaddr s none = (failed, s)
unmap_span pgd vaddr s (some end) =
    if ltb (u64_max - end) vaddr then (failed, s) else unmap_from (end / page_size) 0 pgd vaddr s

pub unmap_range : ℕ → ℕ → ℕ → Vm → Status × Vm
unmap_range pgd vaddr size s =
    if pgd == 0
    then (failed, s)
    else if size == 0
    then (ok, s)
    else unmap_span pgd (page_align_down vaddr) s
        (page_span (sub64 vaddr (page_align_down vaddr)) size)

abbrev read_leaf : ℕ → Memory → Option ℕ → ℕ
read_leaf vaddr m none = 0
read_leaf vaddr m (some table) = m (entry_of table (table_index vaddr 3))

pub leaf_entry : ℕ → ℕ → Memory → ℕ
leaf_entry pgd vaddr m = read_leaf vaddr m (leaf_table pgd vaddr m)

pub virt_to_phys : ℕ → ℕ → Memory → ℕ
virt_to_phys pgd vaddr m =
    let entry = leaf_entry pgd vaddr m in
    if not (has entry desc_valid) || not (has entry desc_page)
    then 0
    else bit_or (bit_and entry desc_addr_mask) (bit_and vaddr (page_size - 1))
