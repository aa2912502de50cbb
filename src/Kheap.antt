-- ===== src/Kheap.antt =====
-- kernel/mm/kheap.c: the kernel heap. The doubly linked list from `g_heap_head` to `g_heap_tail` is a
-- list of blocks, each with its address: `next` and `prev` of a block are its neighbours in the list,
-- and its last element is `g_heap_tail`. A null pointer is 0 or, as a result, `none`.
pub mod Cover
pub mod Extend
pub mod Alloc
pub mod Free
mod Tests
use kolibriarm.Base.{
  ℕ, zero, suc, ◌+◌, ◌-◌, ◌*◌, ◌/◌, ◌^◌, Bool, true, false, ◌&&◌, ◌||◌, not, List, [], ◌∷◌, ◌++◌,
  Option, none, some, ltb, leb, ◌==◌, if◌then◌else◌, bit_and, u64, u64_max, sub64, complement64,
}
use kolibriarm.Pmm.{Pmm, page_size, alloc_pages}

pub record Block : Type 0 where
  pub address : ℕ
  pub size : ℕ
  pub free : ℕ
  pub arena_id : ℕ

pub record Heap : Type 0 where
  pub blocks : List Block
  pub total_bytes : ℕ
  pub next_arena_id : ℕ
  pub pmm : Pmm

abbrev pub heap_align : ℕ
heap_align = 16

abbrev pub min_split : ℕ
min_split = 32

pub align_up : ℕ → ℕ
align_up value = bit_and (u64 (value + heap_align - 1)) (complement64 (heap_align - 1))

-- `align_up` of the 40 bytes of the five fields of a block.
abbrev pub header_size : ℕ
header_size = 48

pub page_count_for_payload : ℕ → ℕ
page_count_for_payload payload_size =
    let needed = header_size + payload_size in
    if ltb (u64_max - header_size) payload_size
    then 0
    else if ltb (u64_max - (page_size - 1)) needed
    then 0
    else (needed + page_size - 1) / page_size

abbrev pub blocks_are_adjacent : Block → Block → Bool
blocks_are_adjacent left right = u64 (left.address + header_size + left.size) == right.address

abbrev pub blocks_can_coalesce : Block → Block → Bool
blocks_can_coalesce left right =
    not (right.free == 0) && left.arena_id == right.arena_id && blocks_are_adjacent left right

abbrev pub new_block : ℕ → ℕ → ℕ → Block
new_block address pages arena = record {
  address = address;
  size = pages * page_size - header_size;
  free = 1;
  arena_id = arena;
}

abbrev pub add_arena : ℕ → Heap → ℕ × Pmm → Option Block × Heap
add_arena pages heap (address, left) =
    let block = new_block address pages heap.next_arena_id in
    if address == 0 then (none, record heap { pmm = left }) else (
      some block,
      record {
        blocks = heap.blocks ++ block ∷ [];
        total_bytes = u64 (heap.total_bytes + block.size);
        next_arena_id = heap.next_arena_id + 1;
        pmm = left;
      },
    )

-- The block returned is the last of the list.
pub extend_heap : ℕ → Heap → Option Block × Heap
extend_heap min_payload_size heap =
    let pages = page_count_for_payload min_payload_size in
    if pages == 0 then (none, heap) else add_arena pages heap (alloc_pages heap.pmm pages)

-- The block, and the next one that is split off.
pub split_block : Block → ℕ → Block × List Block
split_block block size =
    if ltb block.size (u64 (size + header_size + min_split)) then (block, []) else (
      record block { size = size },
      record {
        address = u64 (block.address + header_size + size);
        size = block.size - size - header_size;
        free = 1;
        arena_id = block.arena_id;
      }
          ∷ [],
    )

-- Splitting a block and taking it: the blocks that stand in its place.
pub take : Block → ℕ → List Block
take block size = (let (kept, rest) = split_block block size in record kept { free = 0 } ∷ rest)

abbrev pub fits : Block → ℕ → Bool
fits block size = not (block.free == 0) && leb size block.size

abbrev pub put_before : Block → Option (ℕ × List Block) → Option (ℕ × List Block)
put_before block none = none
put_before block (some (address, rest)) = some (address, block ∷ rest)

-- The loop over the blocks: the address of the first that fits, and the list with it taken.
pub take_first : List Block → ℕ → Option (ℕ × List Block)
take_first [] size = none
take_first (block ∷ rest) size =
    let later = take_first rest size in
    if fits block size
    then some (block.address, take block size ++ rest)
    else put_before block later

pub init : Heap → Heap
init heap = elim heap.blocks [ [] ↦ (extend_heap 1 heap).1 | block ∷ rest ↦ heap ]

-- After the loop has found no block; `before` is the heap that is extended.
abbrev pub take_last : Heap → ℕ → Option Block × Heap → Option ℕ × Heap
take_last before size (none, heap) = (none, heap)
take_last before size (some block, heap) =
    (some (block.address + header_size), record heap { blocks = before.blocks ++ take block size })

abbrev pub use_found : Heap → ℕ → Option (ℕ × List Block) → Option ℕ × Heap
use_found heap size (some (address, blocks)) =
    (some (address + header_size), record heap { blocks = blocks })
use_found heap size none = take_last heap size (extend_heap size heap)

pub kmalloc : ℕ → Heap → Option ℕ × Heap
kmalloc size heap =
    let aligned_size = align_up size in
    let ready = init heap in
    if size == 0 || ltb (u64_max - (heap_align - 1)) size
    then (none, heap)
    else use_found ready aligned_size (take_first ready.blocks aligned_size)

-- `coalesce_next` of a block with the blocks behind it.
pub coalesce_next : Block → List Block → List Block
coalesce_next block [] = block ∷ []
coalesce_next block (next ∷ rest) =
    if blocks_can_coalesce block next
    then record block { size = u64 (block.size + (header_size + next.size)) } ∷ rest
    else block ∷ next ∷ rest

abbrev pub release : Block → List Block → List Block
release block rest = coalesce_next (record block { free = 1 }) rest

abbrev pub put_back : Block → Option (List Block) → Option (List Block)
put_back block none = none
put_back block (some rest) = some (block ∷ rest)

-- The block at an address behind `prev` is freed; `none` where there is none.
pub free_behind : ℕ → Block → List Block → Option (List Block)
free_behind address prev [] = none
free_behind address prev (block ∷ rest) =
    let later = free_behind address block rest in
    if block.address == address
    then if not (block.free == 0)
      then some (prev ∷ block ∷ rest)
      else if not (prev.free == 0)
      then some (coalesce_next prev (release block rest))
      else some (prev ∷ release block rest)
    else put_back prev later

pub free_block : ℕ → List Block → Option (List Block)
free_block address [] = none
free_block address (block ∷ rest) =
    if block.address == address
    then if not (block.free == 0) then some (block ∷ rest) else some (release block rest)
    else free_behind address block rest

abbrev pub with_blocks : Heap → Option (List Block) → Option Heap
with_blocks heap none = none
with_blocks heap (some blocks) = some (record heap { blocks = blocks })

-- `none` where the code follows a pointer to no block of the list.
pub kfree : ℕ → Heap → Option Heap
kfree ptr heap =
    if ptr == 0
    then some heap
    else with_blocks heap (free_block (sub64 ptr header_size) heap.blocks)

pub free_bytes : List Block → ℕ
free_bytes [] = 0
free_bytes (block ∷ rest) =
    if not (block.free == 0) then u64 (free_bytes rest + block.size) else free_bytes rest
