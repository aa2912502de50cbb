-- ===== src/SyscallHelpers/Tests.antt =====
-- Runs of kernel/syscall_helpers.c on a process with one region of 8192 bytes.
use kolibriarm.Base.{ℕ, ◌≡◌, refl, ◌∷◌, [], List, replicate, arith, some, none, ◌==◌, if◌then◌else◌}
use kolibriarm.Process.{Process, State, cleared_region}
use kolibriarm.Process.Regions.{user_range_contains, user_region_end}
use kolibriarm.Base.{first_index}
use kolibriarm.SyscallHelpers.{
  Window, found, error, noent, badf, inval, user_buf_range, copy_from, user_copy_cstr, owner_window,
  owner_window_badf, owner_window_lookup,
}
use kolibriarm.SyscallHelpers.Text.{CopyOutcome, user_copy_cstr_lem}

abbrev image : Process
image = record {
  pid = 7;
  name_storage = replicate 16 0;
  regs = replicate 31 0;
  sp = 0;
  pc = 0;
  pstate = 0;
  page_table = 0;
  state = State.ready;
  exit_code = 0;
  next_user_vaddr = 0x100000000;
  user_regions =
      record { start = 0x400000; end = 0x402000; paddr = 0; flags = 0 }
      ∷ replicate 7 cleared_region;
  user_region_count = 1;
}

-- The last two bytes of the region hold a text of one character.
abbrev memory : ℕ → ℕ
memory = λ a. if a == 0x401ffe then 104 else 0

user_copy_cstr_lem_example :
    CopyOutcome image 0x401ffe memory
      (replicate 8 1)
      8
      (user_copy_cstr image 0x401ffe memory (replicate 8 1) 8)
user_copy_cstr_lem_example =
    user_copy_cstr_lem image 0x401ffe memory (replicate 8 1) 8 (omega arith) (λ e. omega (arith, e))

copies : user_copy_cstr image 0x401ffe memory (replicate 3 1) 3 ≡ (none, 104 ∷ 0 ∷ 1 ∷ [])
unfolding user_copy_cstr copy_from user_buf_range user_range_contains user_region_end first_index
copies = refl

stops : (user_copy_cstr image 0x402000 memory (replicate 3 1) 3).0 ≡ some inval
unfolding user_copy_cstr copy_from user_buf_range user_range_contains user_region_end first_index
stops = refl

abbrev windows : List Window
windows = record { used = 1; owner_pid = 7 } ∷ record { used = 1; owner_pid = 8 } ∷ []

owns : owner_window image 0 (some windows) ≡ found 0
unfolding owner_window owner_window_lookup
owns = refl

other_owner : owner_window image 1 (some windows) ≡ error badf
unfolding owner_window owner_window_lookup
other_owner = refl

unused_window : owner_window image 2 (some windows) ≡ error noent
unfolding owner_window owner_window_lookup
unused_window = refl

unused_badf : owner_window_badf image 2 (some windows) ≡ error badf
unfolding owner_window_badf owner_window_lookup
unused_badf = refl
