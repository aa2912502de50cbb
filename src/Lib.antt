-- ===== src/Lib.antt =====
-- A model of ArmoniOS, a kernel for AArch64 in C, and the properties of its parts.
--
-- The parts and their files. Each module's first comment names its code.
--   Pmm        kernel/mm/pmm.c: the allocator of physical pages. `Pmm` is the static state of the file
--              with the bitmap as a list of 64-bit words; `alloc_page` is `pmm_alloc_page`, and so on.
--   Ipc        kernel/ipc.c: messages of sixteen bytes at most in eight slots. `send` and `recv` are
--              `ipc_send` and `ipc_recv`; Ipc.Mailbox is the queue that they implement.
--   Process    kernel/process.c: the process block (Process), its user regions (Regions), the return of
--              its pages (Resources), the table of processes with its life cycle (Table), and the choice
--              of the next process and the switch to it (Schedule). `add_user_region` is
--              `process_add_user_region`, `Table.alloc` is `process_alloc`, and so on.
--   GuiEvents  kernel/gui_events.c: the ring of a window's events.
--   Input      drivers/input/input.c: the queue of key events and the automaton for escape sequences.
--   DhcpOptions  kernel/net/dhcp_options.c: the parser of the options of a DHCP message.
--   Vmm        kernel/mm/vmm.c: the page tables. `Vm` is the allocator's state with the memory as a
--              function from the address of a word to the word; `map_page` is `vmm_map_page`, and so on.
--              A tree of tables is read as a map from pages to descriptors.
--   Kheap      kernel/mm/kheap.c: the kernel heap, its linked list as a list of blocks with addresses.
--   UserVm     kernel/user_vm.c: anonymous and physical mappings of a process, on the regions, the
--              allocator and the page tables together.
--   UserImage  kernel/user_image.c: the loader of flat images (Load) and the start of a process in one
--              (Prepare). A byte memory is a function from addresses.
--   SyscallHelpers  kernel/syscall_helpers.c: the checks of pointers, texts and window owners.
--   Base, Bits lists, machine words, loops over arrays and the bits of a number, shared by all.
-- Processes give the pages of their regions back to the allocator: `free_resources` calls
-- `Pmm.free_page`. Page tables stand in pages that the allocator gives, `map_anonymous` calls the
-- regions, the allocator and the page tables in turn, and the heap takes its arenas from the allocator.
-- The programs, the other drivers and the other parts of the kernel are not modelled.
--
-- How the code is read. A function that writes a static variable or through a pointer takes the state
-- and returns the new one. A pointer to a process in the table is the index of its slot. A null pointer
-- that the code treats as an argument of its own is `none`; a null check that only guards against
-- misuse has no counterpart where the model has no null. A number is the native ℕ: a sum or difference
-- that may wrap is written with `u64`, `u32` or `sub64`, and an array is a list that a write leaves as
-- long as it was.
--
-- Loops run on a bound of the code itself: the slots of a table, the pages of an allocator, the words of
-- an array. The loop over the pages of a region in `process_free_resources` has `size / 4096 + 1`
-- rounds, more than the offsets below the size; above a size of 2^64 - 4096, where the code's offset wraps
-- and its loop does not end, the model stops after them. The loop of `dhcp_options_parse` has `len + 1`:
-- a round that goes on moves ahead by a byte at least. The loops of `vmm_map_range` and
-- `vmm_unmap_range` have `end / 4096` rounds, for `end` is a multiple of the page size.
-- `free_from` of UserVm has a round for each offset below the size, `copy_from` of SyscallHelpers one for
-- each byte of the capacity.
--
-- Arguments of the model. `free_table` of the process modules stands for `vmm_free_table`, a function on
-- the allocator's state, and `destroy_windows` for `gui_destroy_windows_for_pid` of
-- kernel/gui_pool.c, a function on any state of the windows. The windows that `gui_desktop` returns are
-- an argument of `owner_window_lookup`. `process_activate_context` also writes TTBR0, which no part of
-- the model reads.
pub mod Base
pub mod Bits
pub mod DhcpOptions
pub mod GuiEvents
pub mod Input
pub mod Ipc
pub mod Kheap
pub mod Pmm
pub mod Process
pub mod SyscallHelpers
pub mod UserImage
pub mod UserVm
pub mod Vmm
