-- ===== src/Pmm.antt =====
-- kernel/mm/pmm.c: the physical page allocator. The file's static variables are the fields of
-- `Pmm`; a function that changes them returns the new record, beside its result.
pub mod Pages
pub mod Inv
pub mod Ranges
pub mod Alloc
pub mod Runs
pub mod Free
pub mod Reserve
mod Tests
use kolibriarm.Base.{
  ℕ, zero, suc, ◌+◌, ◌-◌, ◌*◌, ◌/◌, ◌%◌, ◌^◌, bit_and, bit_or, Bool, true, false, ◌&&◌, ◌||◌, not,
  List, ltb, leb, ◌==◌, if◌then◌else◌, get_or, set, replicate, u64_max, u64, sub64, complement64,
}

-- g_bitmap, g_mem_base, g_total_pages and g_free_pages. A set bit is a used page.
pub record Pmm : Type 0 where
  pub bitmap : List ℕ
  pub mem_base : ℕ
  pub total_pages : ℕ
  pub free_pages : ℕ

abbrev pub page_size : ℕ
page_size = 4096

abbrev pub max_pages : ℕ
max_pages = 128 * 1024 * 1024 / page_size

abbrev pub bitmap_words : ℕ
bitmap_words = max_pages / 64

pub align_down : ℕ → ℕ
align_down value = bit_and value (complement64 (page_size - 1))

pub align_up : ℕ → ℕ
align_up value = bit_and (u64 (value + page_size - 1)) (complement64 (page_size - 1))

pub add_saturated : ℕ → ℕ → ℕ
add_saturated a b = if ltb (u64_max - b) a then u64_max else u64 (a + b)

pub align_up_saturated : ℕ → ℕ
unfolding align_up
align_up_saturated value =
    if bit_and value (page_size - 1) == 0
    then value
    else if ltb (u64_max - (page_size - 1)) value
    then u64_max
    else align_up value

pub managed_end : Pmm → ℕ
unfolding add_saturated
managed_end s = add_saturated s.mem_base (u64 (s.total_pages * page_size))

-- `1ULL << bit` and the word of the bitmap that holds a page's bit.
abbrev pub mask_of : ℕ → ℕ
mask_of page = 2 ^ (page % 64)

abbrev pub word_of : List ℕ → ℕ → ℕ
word_of bitmap page = get_or bitmap (page / 64) 0

-- `(g_bitmap[word] & mask) == 0`
unfoldable pub is_free : List ℕ → ℕ → Bool
is_free bitmap page = bit_and (word_of bitmap page) (mask_of page) == 0

unfoldable pub set_used : Pmm → ℕ → Pmm
set_used s page =
    if is_free s.bitmap page
    then record s {
      bitmap = set s.bitmap (page / 64) (bit_or (word_of s.bitmap page) (mask_of page));
      free_pages = sub64 s.free_pages 1;
    }
    else s

unfoldable pub set_free : Pmm → ℕ → Pmm
set_free s page =
    if not (is_free s.bitmap page)
    then record s {
      bitmap =
          set s.bitmap (page / 64) (bit_and (word_of s.bitmap page) (complement64 (mask_of page)));
      free_pages = u64 (s.free_pages + 1);
    }
    else s

-- The loops `for (page = first; page < first + n; page++)` over the two.
pub use_range : ℕ → ℕ → Pmm → Pmm
use_range zero page s = s
use_range (suc n) page s = use_range n (page + 1) (set_used s page)

unfoldable pub free_range : ℕ → ℕ → Pmm → Pmm
free_range zero page s = s
free_range (suc n) page s = free_range n (page + 1) (set_free s page)

unfoldable pub init : ℕ → ℕ → Pmm
init base size =
    let pages = size / page_size in
    let total = if ltb max_pages pages then max_pages else pages in
    free_range total 0 (record {
      bitmap = replicate bitmap_words u64_max;
      mem_base = base;
      total_pages = total;
      free_pages = 0;
    })

-- The first and the last but one page that `reserve_range` marks, once its guards have passed.
pub first_page : Pmm → ℕ → ℕ
first_page s start =
    if ltb start s.mem_base then 0 else sub64 (align_down start) s.mem_base / page_size

pub end_page : Pmm → ℕ → ℕ
end_page s end =
    if leb (managed_end s) end
    then s.total_pages
    else let page_end = sub64 (align_up_saturated end) s.mem_base / page_size in
      if ltb s.total_pages page_end then s.total_pages else page_end

pub reserve_range : Pmm → ℕ → ℕ → Pmm
reserve_range s start size =
    let end = add_saturated start size in
    let page_start = first_page s start in
    if size == 0 || s.total_pages == 0
    then s
    else if leb end s.mem_base || leb (managed_end s) start
    then s
    else use_range (end_page s end - page_start) page_start s

abbrev pub address : Pmm → ℕ → ℕ
address s page = u64 (s.mem_base + u64 (page * page_size))

-- The loop of `alloc_page`, with `n` pages left to look at.
unfoldable pub alloc_from : ℕ → ℕ → Pmm → ℕ × Pmm
alloc_from zero page s = (0, s)
alloc_from (suc n) page s =
    let rest = alloc_from n (page + 1) s in
    if is_free s.bitmap page then (address s page, set_used s page) else rest

unfoldable pub alloc_page : Pmm → ℕ × Pmm
unfolding alloc_from
alloc_page s = alloc_from s.total_pages 0 s

-- The loop of `alloc_pages`, with `n` pages left to look at.
pub alloc_run : ℕ → ℕ → ℕ → ℕ → ℕ → Pmm → ℕ × Pmm
alloc_run count zero page run_start run_count s = (0, s)
alloc_run count (suc n) page run_start run_count s =
    let start = if run_count == 0 then page else run_start in
    let longer = alloc_run count n (page + 1) start (run_count + 1) s in
    let broken = alloc_run count n (page + 1) run_start 0 s in
    if is_free s.bitmap page
    then if run_count + 1 == count then (address s start, use_range count start s) else longer
    else broken

pub alloc_pages : Pmm → ℕ → ℕ × Pmm
unfolding alloc_run
alloc_pages s count =
    if count == 0 || ltb s.total_pages count then (0, s) else alloc_run count s.total_pages 0 0 0 s

pub free_page : Pmm → ℕ → Pmm
free_page s paddr =
    let page = sub64 paddr s.mem_base / page_size in
    if ltb paddr s.mem_base || not (bit_and paddr (page_size - 1) == 0)
    then s
    else if leb s.total_pages page
    then s
    else set_free s page

pub free_count : Pmm → ℕ
free_count s = s.free_pages

pub total_count : Pmm → ℕ
total_count s = s.total_pages
