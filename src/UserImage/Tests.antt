-- ===== src/UserImage/Tests.antt =====
-- Runs of kernel/user_image.c on an image of 84 bytes with its entry at offset 80.
use kolibriarm.Base.{ℕ, ◌-◌, ◌≡◌, refl, ◌∷◌, [], List, Status, ok, replicate, arith, get_or}
use kolibriarm.Process.{Process, State, cleared_region}
use kolibriarm.Process.Regions.Inv.{IsValid}
use kolibriarm.UserImage.{
  Bytes, Image, header_at, read_le, add_u64_checked, load_copy, load_flat, prepare_process,
}
use kolibriarm.UserImage.Load.{LoadOutcome, load_flat_lem}
use kolibriarm.UserImage.Prepare.{PrepareOutcome, prepare_process_lem}

abbrev image_bytes : List ℕ
image_bytes = 0x4b ∷ 0x4c ∷ 0x49 ∷ 0x31 ∷ 80 ∷ 0 ∷ 1 ∷ 0 ∷ 84 ∷ 0 ∷ 0 ∷ 0 ∷ 0 ∷ 0 ∷ 0 ∷ 0 ∷ 80 ∷ []

-- The image lies at address 4096.
abbrev memory : Bytes
memory = λ a. get_or image_bytes (a - 4096) 0

abbrev no_image : Image
no_image = record { name = []; base = 0; size = 0; entry_offset = 0 }

load_flat_lem_example :
    LoadOutcome no_image
      (115 ∷ [])
      0x400000
      8192
      4096
      84
      0
      memory
      (load_flat no_image (115 ∷ []) 0x400000 8192 4096 84 0 memory)
load_flat_lem_example = load_flat_lem no_image (115 ∷ []) 0x400000 8192 4096 84 0 memory

is_loaded : (load_flat no_image (115 ∷ []) 0x400000 8192 4096 84 0 memory).0 ≡ ok
unfolding load_flat load_copy add_u64_checked header_at read_le
is_loaded = refl

is_cut_off : (load_flat no_image (115 ∷ []) 0x400000 8192 4096 83 0 memory).0 ≡ Status.failed
unfolding load_flat load_copy add_u64_checked header_at read_le
is_cut_off = refl

abbrev fresh : Process
fresh = record {
  pid = 7;
  name_storage = replicate 16 0;
  regs = replicate 31 0;
  sp = 0;
  pc = 0;
  pstate = 0;
  page_table = 0;
  state = State.ready;
  exit_code = 0;
  next_user_vaddr = 0x100000000;
  user_regions = replicate 8 cleared_region;
  user_region_count = 0;
}

fresh-IsValid : IsValid fresh
fresh-IsValid = record {
  eight = refl;
  counted = omega arith;
  sized = λ i h. absurd (omega arith);
  apart = λ i j h k. absurd (omega arith);
}

abbrev shell : Image
shell = record { name = []; base = 0x400000; size = 8192; entry_offset = 80 }

prepare_process_lem_example :
    PrepareOutcome fresh shell 0x800000 4096 0 (prepare_process fresh shell 0x800000 4096 0)
prepare_process_lem_example =
    prepare_process_lem fresh shell 0x800000 4096 0 fresh-IsValid (omega arith) (omega arith)
