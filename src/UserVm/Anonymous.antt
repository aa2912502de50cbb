-- ===== src/UserVm/Anonymous.antt =====
-- `user_vm_map_anonymous` of kernel/user_vm.c.
use kolibriarm.Base.{
  ℕ, ◌*◌, ◌/◌, ◌^◌, ◌<◌, ◌≡◌, ◌≢◌, refl, sym, subst, ◌||◌, not, Option, none, some, ◌==◌, arith,
  Bool-cases, Option-cases, inl, inr,
}
use kolibriarm.Pmm.{page_size, alloc_pages}
use kolibriarm.Pmm.Runs.{alloc_pages_lem}
use kolibriarm.Vmm.{Vm}
use kolibriarm.Vmm.Tree.{Tree}
use kolibriarm.Process.{Process}
use kolibriarm.Process.Regions.Inv.{IsValid}
use kolibriarm.Process.Regions.Alloc.{
  AllocOutcome, mapped as reserved, unchanged, alloc_user_region_lem, page_up,
}
use kolibriarm.Process.Regions.Mapping.{alloc_user_region-page_table}
use kolibriarm.UserVm.{
  inval, page_align_up, flags_to_vmm, map_anonymous, map_with, map_region, map_frames,
}
use kolibriarm.UserVm.Frames.{
  Vacant, AnonymousOutcome, refused, page_align_up_lem, Reserved, map_frames_lem,
}

unchanged_lem :
    (p : Process) (size flags : ℕ) (s : Vm)
    → IsValid p
    → AnonymousOutcome p size flags s (inval, p, s)
unchanged_lem p size flags s v =
    refused (inr refl) (record { count = refl; all = λ i h. refl; valid = v }) (λ w. refl)

map_region_lem :
    (p : Process) (size flags access aligned : ℕ) (s : Vm) (r : Option ℕ × Process)
    → IsValid p
    → Tree p.page_table s
    → Vacant p s
    → aligned ≡ page_up size
    → aligned ≢ 0
    → flags_to_vmm flags ≡ some access
    → r.1.page_table ≡ p.page_table
    → AllocOutcome p aligned r
    → AnonymousOutcome p size flags s (map_region aligned access s r)
map_region_lem p size flags access aligned s r v tree vacant up nz e table (unchanged same why) =
    subst (λ x. AnonymousOutcome p size flags s (map_region aligned access s x)) (sym same)
      (unchanged_lem p size flags s v)
map_region_lem p size flags access aligned s (none, q) v tree vacant up nz e table
      (reserved addr n at start pages limit next count new old valid) =
    absurd (ground arith)
map_region_lem p size flags access aligned s (some a, q) v tree vacant up nz e table
      (reserved addr n at start pages limit next count new old valid) =
    let here : addr ≡ a = ground arith in
    let whole : n * 4096 ≡ aligned = omega arith in
    let frames : n ≡ aligned / page_size = omega arith in
    let h : Reserved p s q size addr n = record {
      start = start;
      pages = omega arith;
      pos = omega arith;
      limit = limit;
      next = next;
      count = count;
      new = new;
      old = old;
      valid = valid;
      table = table;
      vacant = vacant;
      tree = tree;
    } in
    subst
      (λ (x : ℕ × ℕ × ℕ).
        AnonymousOutcome p size flags s (map_frames x.0 x.1 access q s (alloc_pages s.pmm x.2)))
      (λ i. (here i, whole i, frames i))
      (map_frames_lem h flags access _ e (alloc_pages_lem s.pmm n tree.pages))

-- On a process with valid regions and a tree of tables whose pages the allocator manages, with no
-- page mapped from `next_user_vaddr` to the mmap limit, for a size and a `next_user_vaddr` below 2
-- ^ 64: `user_vm_map_anonymous` is all or nothing. It returns the address of a new region of the
-- size, rounded up, that starts at `next_user_vaddr`, rounded up, is recorded with its frames as
-- owned, and is mapped page by page to a run of frames that were free, with every other page's
-- mapping as before and `next_user_vaddr` moved behind the region; or it returns an error, and then
-- the regions are as before and so is the mapping of every page.
pub map_anonymous_lem :
    (p : Process) (hint size flags : ℕ) (s : Vm)
    → IsValid p
    → Tree p.page_table s
    → Vacant p s
    → size < 2 ^ 64
    → p.next_user_vaddr < 2 ^ 64
    → AnonymousOutcome p size flags s (map_anonymous p hint size flags s)
unfolding map_anonymous
map_anonymous_lem p hint size flags s v tree vacant h k =
    elim (Bool-cases (p.page_table == 0 || not (hint == 0) || page_align_up size == 0)) [
      | inl bad ↦ rw bad (unchanged_lem p size flags s v)
      | inr good ↦ rw good (elim (Option-cases (flags_to_vmm flags)) [
        | inl wrong ↦ rw wrong (unchanged_lem p size flags s v)
        | inr (access, e) ↦
            let nz : page_align_up size ≢ 0 = ground arith in
            let (up, small) = page_align_up_lem size h nz in
            subst (λ o. AnonymousOutcome p size flags s (map_with (page_align_up size) p s o))
              (sym e)
              (map_region_lem p size flags access (page_align_up size) s _ v tree vacant up nz e
                (alloc_user_region-page_table p (page_align_up size))
                (alloc_user_region_lem p (page_align_up size) v (omega arith) k))
      ])
    ]
