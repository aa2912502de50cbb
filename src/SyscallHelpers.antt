-- ===== src/SyscallHelpers.antt =====
-- kernel/syscall_helpers.c: the checks of what a process passes to a system call. Memory is a function
-- from the address of a byte to the byte. The functions take a process and a place for each result, so
-- that the null checks of these have no counterpart.
pub mod Text
mod Tests
use kolibriarm.Base.{
  ℕ, zero, suc, ◌+◌, ◌-◌, Bool, true, false, ◌&&◌, ◌||◌, not, List, Option, none, some, ltb, leb,
  ◌==◌, if◌then◌else◌, get_or, set, u64_max,
}
use kolibriarm.Process.{Process}
use kolibriarm.Process.Regions.{user_range_contains}

pub data Error : Type 0 where
  noent badf inval again : Error

-- The fields of `gui_window_t` that the check of its owner reads.
pub record Window : Type 0 where
  pub used : ℕ
  pub owner_pid : ℕ

abbrev pub max_windows : ℕ
max_windows = 16

abbrev pub no_window : Window
no_window = record { used = 0; owner_pid = 0 }

-- `*out_window` as an index of `windows`, or the error.
pub data Lookup : Type 0 where
  found : ℕ → Lookup
  error : Error → Lookup

-- The desktop's windows, or `none` while `gui_desktop` returns null.
abbrev pub check_owner : Process → ℕ → Error → Option (List Window) → Lookup
check_owner process window_id missing_error none = error again
check_owner process window_id missing_error (some windows) =
    let window = get_or windows window_id no_window in
    if window.used == 0
    then error missing_error
    else if not (window.owner_pid == process.pid)
    then error badf
    else found window_id

pub owner_window_lookup : Process → ℕ → Error → Option (List Window) → Lookup
owner_window_lookup process window_id missing_error desktop =
    if leb max_windows window_id
    then error inval
    else check_owner process window_id missing_error desktop

pub owner_window : Process → ℕ → Option (List Window) → Lookup
owner_window process window_id desktop = owner_window_lookup process window_id noent desktop

pub owner_window_badf : Process → ℕ → Option (List Window) → Lookup
owner_window_badf process window_id desktop = owner_window_lookup process window_id badf desktop

-- The error, or `none` for 0.
pub user_buf_range : Process → ℕ → ℕ → Option Error
user_buf_range process ptr len =
    if ptr == 0 && not (len == 0)
    then some inval
    else if not (user_range_contains process ptr len)
    then some inval
    else none

abbrev pub user_buf_in : Process → ℕ → ℕ → Option Error
user_buf_in process ptr len = user_buf_range process ptr len

abbrev pub user_buf_out : Process → ℕ → ℕ → Option Error
user_buf_out process ptr len = user_buf_range process ptr len

abbrev pub is_error : Option Error → Bool
is_error none = false
is_error (some e) = true

-- The rounds from index i on, with n left.
pub copy_from : ℕ → ℕ → Process → ℕ → (ℕ → ℕ) → List ℕ → Option Error × List ℕ
copy_from zero i process ptr m out = (some inval, out)
copy_from (suc n) i process ptr m out =
    let byte = m (ptr + i) in
    let written = set out i byte in
    let rest = copy_from n (i + 1) process ptr m written in
    if ltb (u64_max - i) ptr
    then (some inval, out)
    else if is_error (user_buf_in process (ptr + i) 1)
    then (some inval, out)
    else if byte == 0
    then (none, written)
    else rest

pub user_copy_cstr : Process → ℕ → (ℕ → ℕ) → List ℕ → ℕ → Option Error × List ℕ
user_copy_cstr process ptr m out capacity =
    if ptr == 0 || capacity == 0 then (some inval, out) else copy_from capacity 0 process ptr m out
