-- ===== src/UserVm/Physical.antt =====
-- `user_vm_map_physical` of kernel/user_vm.c on a range that is mapped already.
use kolibriarm.Base.{
  ℕ, ◌+◌, ◌/◌, ◌%◌, ◌^◌, ◌<◌, ◌≤◌, ◌≡◌, ◌≢◌, refl, sym, ap, ◌∙◌, subst, true, false, ◌||◌, Option,
  some, ◌==◌, if◌then◌else◌, Status, ok, failed, arith,
}
use kolibriarm.Pmm.{page_size}
use kolibriarm.Vmm.{Vm}
use kolibriarm.Vmm.Tree.{Tree, root_pos}
use kolibriarm.Vmm.Unmap.{mapping, within}
use kolibriarm.Vmm.Rounds.{RoundsOutcome, filled, rolled_back}
use kolibriarm.Vmm.Range.{page_count, map_range_lem}
use kolibriarm.Vmm.Release.{unmap_range_lem}
use kolibriarm.Process.{Process, Region}
use kolibriarm.Process.Regions.{find_user_region}
use kolibriarm.UserVm.{flags_to_vmm, map_physical, map_physical_with, physical_mapped}

-- Every page of the span is unmapped, and every other page's mapping is as before.
abbrev pub Lost : Process → ℕ → ℕ → Vm → Status × Process × Vm → Type 0
Lost p vaddr size s r =
    (r.0 ≡ failed)
    × (r.1 ≡ p)
    × ((w : ℕ)
        → mapping p.page_table r.2 w ≡ (
            if within (vaddr / page_size) (page_count vaddr size) w
            then 0
            else mapping p.page_table s w))

physical_mapped_busy :
    (p : Process) (vaddr paddr size flags : ℕ) (s : Vm) (r : Status × Vm)
    → 0 < size
    → vaddr / page_size + page_count vaddr size ≤ 2 ^ 36
    → ((w : ℕ)
        → within (vaddr / page_size) (page_count vaddr size) w ≡ true
        → mapping p.page_table s w ≢ 0)
    → RoundsOutcome
        (vaddr / page_size)
        (page_count vaddr size)
        (paddr / page_size)
        flags
        p.page_table
        s
        r
    → Lost p vaddr size s (physical_mapped vaddr paddr size p r)
physical_mapped_busy p vaddr paddr size flags s r pos span all (filled status f) =
    absurd (all vaddr (ground arith) (f.vacant vaddr (ground arith)))
physical_mapped_busy p vaddr paddr size flags s (ok, u) pos span all
      (rolled_back status tree view why) =
    absurd (ground arith)
physical_mapped_busy p vaddr paddr size flags s (failed, u) pos span all
      (rolled_back status tree view why) =
    let done =
      unmap_range_lem p.page_table vaddr size u tree pos span
        (λ w inside z. all w inside (sym (view w) ∙ z)) in
    (
      refl,
      refl,
      λ w.
          done.undone.view w
          ∙ ap (λ x. if within (vaddr / page_size) (page_count vaddr size) w then 0 else x)
              (view w),
    )

-- On a tree of tables whose pages the allocator manages, for a region of the process of at least a byte
-- at an address that is not null, in the lower 2^48 addresses, every page of which is mapped, with
-- frames that are not null, end below 2^64 and have the same offset, and supported flags:
-- `user_vm_map_physical` fails and leaves the process as it is, but unmaps every page of the region.
pub map_physical_busy :
    (p : Process) (vaddr paddr size flags access : ℕ) (region : Region) (s : Vm)
    → Tree p.page_table s
    → (vaddr ≢ 0) × (paddr ≢ 0) × (0 < size)
    → vaddr % page_size ≡ paddr % page_size
    → vaddr / page_size + page_count vaddr size ≤ 2 ^ 36
    → paddr / page_size + page_count vaddr size < 2 ^ 52
    → flags_to_vmm flags ≡ some access
    → find_user_region p vaddr size ≡ some region
    → ((w : ℕ)
        → within (vaddr / page_size) (page_count vaddr size) w ≡ true
        → mapping p.page_table s w ≢ 0)
    → Lost p vaddr size s (map_physical p vaddr paddr size flags s)
unfolding map_physical
map_physical_busy p vaddr paddr size flags access region s tree (nv, np, pos) same span frames e
      found all =
    let root : p.page_table ≢ 0 = root_pos p.page_table s tree in
    let go : p.page_table == 0 || vaddr == 0 || paddr == 0 || size == 0 ≡ false = ground arith in
    rw go (
      subst
        (λ (x : Option ℕ × Option Region).
          Lost p vaddr size s (map_physical_with vaddr paddr size p s x.0 x.1))
        (λ i. (sym e i, sym found i))
        (physical_mapped_busy p vaddr paddr size access s _ pos span all
          (map_range_lem p.page_table vaddr paddr size access s tree pos same span frames)))
