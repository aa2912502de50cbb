-- ===== src/UserImage.antt =====
-- kernel/user_image.c: the loader of flat images with a header (KLI1). Memory is a function from the
-- address of a byte to the byte; a number of several bytes has its lowest byte first. A name is the
-- text that the pointer leads to.
pub mod Load
pub mod Prepare
mod Tests
use kolibriarm.Base.{
  ℕ, zero, suc, ◌+◌, ◌-◌, ◌*◌, ◌^◌, Bool, true, false, ◌&&◌, ◌||◌, not, List, Option, none, some,
  ltb, leb, ◌==◌, if◌then◌else◌, Status, ok, failed, u64, u64_max,
}
use kolibriarm.Process.{Process, set_entry}
use kolibriarm.Process.Regions.{add_user_region, remove_user_region_info}

abbrev pub Bytes : Type 0
Bytes = ℕ → ℕ

abbrev pub store_byte : Bytes → ℕ → ℕ → Bytes
store_byte m address value = λ a. if a == address then value else m a

-- The number in the n bytes from an address on.
pub read_le : ℕ → ℕ → Bytes → ℕ
read_le zero address m = 0
read_le (suc n) address m = m address + 256 * read_le n (address + 1) m

pub record Image : Type 0 where
  pub name : List ℕ
  pub base : ℕ
  pub size : ℕ
  pub entry_offset : ℕ

-- user_flat_image_header_t, with the entry offset of an index as a function.
pub record Header : Type 0 where
  pub magic : ℕ
  pub header_size : ℕ
  pub entry_count : ℕ
  pub image_size : ℕ
  pub entry_offsets : ℕ → ℕ

abbrev pub image_magic : ℕ
image_magic = 0x31494c4b

abbrev pub max_entries : ℕ
max_entries = 8

abbrev pub image_header_size : ℕ
image_header_size = 80

pub header_at : ℕ → Bytes → Header
header_at source_base m = record {
  magic = read_le 4 source_base m;
  header_size = read_le 2 (source_base + 4) m;
  entry_count = read_le 2 (source_base + 6) m;
  image_size = read_le 8 (source_base + 8) m;
  entry_offsets = λ i. read_le 8 (source_base + 16 + 8 * i) m;
}

-- `*out`, or `none` for -1.
pub add_u64_checked : ℕ → ℕ → Option ℕ
add_u64_checked a b = if ltb (u64_max - b) a then none else some (u64 (a + b))

abbrev pub or_zero : Option ℕ → ℕ
or_zero none = 0
or_zero (some entry) = entry

pub entry_point : Image → ℕ
entry_point image =
    if image.base == 0 || image.size == 0 || leb image.size image.entry_offset
    then 0
    else or_zero (add_u64_checked image.base image.entry_offset)

-- The rounds from index i on.
pub copy_bytes : ℕ → ℕ → ℕ → ℕ → Bytes → Bytes
copy_bytes zero i load source m = m
copy_bytes (suc n) i load source m =
    copy_bytes n (i + 1) load source (store_byte m (load + i) (m (source + i)))

pub load_copy : Image → List ℕ → ℕ → ℕ → ℕ → ℕ → ℕ → Bytes → Status × Image × Bytes
load_copy image name load_base load_capacity source_base source_size source_entry m =
    if load_base == 0
      || load_capacity == 0
      || source_base == 0
      || source_size == 0
      || ltb load_capacity source_size
      || ltb source_entry source_base
      || leb source_size (source_entry - source_base)
    then (failed, image, m)
    else (
      ok,
      record {
        name = name;
        base = load_base;
        size = source_size;
        entry_offset = source_entry - source_base;
      },
      copy_bytes source_size 0 load_base source_base m,
    )

-- The tests of a header with the right magic number.
abbrev pub rejects : Header → ℕ → ℕ → Bool
rejects header source_capacity entry_index =
    ltb source_capacity image_header_size
    || not (header.header_size == image_header_size)
    || ltb header.image_size header.header_size
    || header.entry_count == 0
    || ltb max_entries header.entry_count
    || leb header.entry_count entry_index
    || ltb source_capacity header.image_size

abbrev pub load_entry : Image → List ℕ → ℕ → ℕ → ℕ → ℕ → Bytes → Option ℕ → Status × Image × Bytes
load_entry image name load_base load_capacity source_base image_size m none = (failed, image, m)
load_entry image name load_base load_capacity source_base image_size m (some source_entry) =
    load_copy image name load_base load_capacity source_base image_size source_entry m

pub load_flat : Image → List ℕ → ℕ → ℕ → ℕ → ℕ → ℕ → Bytes → Status × Image × Bytes
load_flat image name load_base load_capacity source_base source_capacity entry_index m =
    let header = header_at source_base m in
    let entry_offset = header.entry_offsets entry_index in
    if source_base == 0 || ltb source_capacity 4
    then (failed, image, m)
    else if not (header.magic == image_magic) || rejects header source_capacity entry_index
    then (failed, image, m)
    else if ltb entry_offset header.header_size || leb header.image_size entry_offset
    then (failed, image, m)
    else load_entry image name load_base load_capacity source_base header.image_size m
        (add_u64_checked source_base entry_offset)

-- What `user_image_prepare_process` does once the image's region is there or refused; `old` is the
-- process before it.
abbrev pub restore : Process → Process → Process
restore old process = set_entry process old.pc old.sp old.pstate

abbrev pub add_stack : Process → Image → Status × Process → Status × Process
add_stack old image (failed, process) =
    (failed, restore old (remove_user_region_info process image.base image.size).1)
add_stack old image (ok, process) = (ok, process)

abbrev pub add_image : Process → Image → ℕ → ℕ → Status × Process → Status × Process
add_image old image stack_start stack_size (failed, process) = (failed, restore old process)
add_image old image stack_start stack_size (ok, process) =
    add_stack old image (add_user_region process stack_start stack_size)

abbrev pub prepare_at : Process → Image → ℕ → ℕ → ℕ → Option ℕ → Status × Process
prepare_at process image stack_start stack_size pstate none = (failed, process)
prepare_at process image stack_start stack_size pstate (some stack_top) =
    add_image process image stack_start stack_size (
      add_user_region (set_entry process (entry_point image) stack_top pstate) image.base
        image.size)

pub prepare_process : Process → Image → ℕ → ℕ → ℕ → Status × Process
prepare_process process image stack_start stack_size pstate =
    if entry_point image == 0 || stack_start == 0 || stack_size == 0
    then (failed, process)
    else prepare_at process image stack_start stack_size pstate
        (add_u64_checked stack_start stack_size)
