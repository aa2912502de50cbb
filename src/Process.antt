-- ===== src/Process.antt =====
-- kernel/process.c: the process-control block. A function that writes `*process` returns the new
-- struct; a result that goes through a pointer stands beside the status. The functions take a
-- process, so the null checks at their heads have no counterpart, and `frame` and the register
-- arrays are there as well.
pub mod Regions
pub mod Resources
pub mod Table
pub mod Schedule
use kolibriarm.Base.{
  ℕ, zero, suc, ◌+◌, ◌-◌, ◌^◌, Bool, true, false, ◌&&◌, ◌||◌, not, List, [], ◌∷◌, Option, none,
  some, ltb, leb, ◌==◌, if◌then◌else◌, get_or, set, replicate, copy, fill,
}

pub data State : Type 0 where
  unused ready running blocked zombie : State

pub data Policy : Type 0 where
  exit preempt : Policy

-- process_user_region_t
pub record Region : Type 0 where
  pub start : ℕ
  pub end : ℕ
  pub paddr : ℕ
  pub flags : ℕ

-- A null `page_table` is 0. `name` always points at `name_storage`.
pub record Process : Type 0 where
  pub pid : ℕ
  pub name_storage : List ℕ
  pub regs : List ℕ
  pub sp : ℕ
  pub pc : ℕ
  pub pstate : ℕ
  pub page_table : ℕ
  pub state : State
  pub exit_code : ℕ
  pub next_user_vaddr : ℕ
  pub user_regions : List Region
  pub user_region_count : ℕ

abbrev pub max_processes : ℕ
max_processes = 16

abbrev pub max_user_regions : ℕ
max_user_regions = 8

abbrev pub name_len : ℕ
name_len = 16

abbrev pub user_mmap_base : ℕ
user_mmap_base = 0x0000000100000000

abbrev pub user_mmap_limit : ℕ
user_mmap_limit = 0x0000000200000000

abbrev pub cleared_region : Region
cleared_region = record { start = 0; end = 0; paddr = 0; flags = 0 }

-- `name[i]`, with the end of the text at its list's end.
copy_chars : ℕ → List ℕ → ℕ → List ℕ → List ℕ
copy_chars zero name i storage = storage
copy_chars (suc n) name i storage =
    let rest = copy_chars n name (i + 1) (set storage i (get_or name i 0)) in
    if get_or name i 0 == 0 then storage else rest

-- The second argument is `name`, or `none` for a null pointer.
pub copy_name : Process → Option (List ℕ) → Process
unfolding copy_chars
copy_name process none = record process { name_storage = fill name_len 0 process.name_storage 0 }
copy_name process (some name) = record process {
  name_storage = copy_chars (name_len - 1) name 0 (fill name_len 0 process.name_storage 0);
}

clear_regions : ℕ → ℕ → List Region → List Region
clear_regions zero i regions = regions
clear_regions (suc n) i regions = clear_regions n (i + 1) (set regions i cleared_region)

pub init : Process → ℕ → Option (List ℕ) → Process
unfolding copy_name clear_regions
init process pid name =
    let named = copy_name process name in
    record named {
      pid = pid;
      sp = 0;
      pc = 0;
      pstate = 0;
      page_table = 0;
      state = ready;
      exit_code = 0;
      next_user_vaddr = user_mmap_base;
      user_region_count = 0;
      regs = fill 31 0 process.regs 0;
      user_regions = clear_regions max_user_regions 0 process.user_regions;
    }

unfoldable pub set_entry : Process → ℕ → ℕ → ℕ → Process
set_entry process pc sp pstate = record process { pc = pc; sp = sp; pstate = pstate }

pub save_context : Process → List ℕ → ℕ → ℕ → ℕ → Process
save_context process regs pc pstate sp = record process {
  regs = copy 31 regs 0 process.regs 0;
  pc = pc;
  pstate = pstate;
  sp = sp;
}

-- exception_frame_t, as far as the context goes.
pub record Frame : Type 0 where
  pub x : List ℕ
  pub elr : ℕ
  pub spsr : ℕ
  pub sp_el0 : ℕ

pub load_context : Process → Frame → Frame
load_context process frame = record {
  x = copy 31 process.regs 0 frame.x 0;
  elr = process.pc;
  spsr = process.pstate;
  sp_el0 = process.sp;
}

pub set_page_table : Process → ℕ → Process
set_page_table process page_table = record process { page_table = page_table }
