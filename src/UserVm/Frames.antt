-- ===== src/UserVm/Frames.antt =====
-- The frames of an anonymous mapping of kernel/user_vm.c.
use kolibriarm.Base.{
  ℕ, ◌+◌, ◌-◌, ◌*◌, ◌/◌, ◌%◌, ◌^◌, ◌<◌, ◌≤◌, ◌≡◌, ◌≢◌, ◌⊎◌, refl, sym, ap, ◌∙◌, subst, subst₂,
  false, ◌||◌, some, ltb, ◌==◌, if◌then◌else◌, Status, ok, failed, u64, u64_max, bit_and,
  complement64, arith, Bool-cases, inl, inr,
}
use kolibriarm.Pmm.{Pmm, page_size}
use kolibriarm.Pmm.Pages.{taken}
use kolibriarm.Pmm.Runs.{RunOutcome, run, refused as no_run}
use kolibriarm.Vmm.{Vm, map_range, unmap_range}
use kolibriarm.Vmm.Tree.{Tree}
use kolibriarm.Vmm.Unmap.{mapping, within, page_of}
use kolibriarm.Vmm.Rounds.{RoundsOutcome, filled, rolled_back, Filled, frame_entry}
use kolibriarm.Vmm.Range.{page_count, map_range_lem, align_down_lem}
use kolibriarm.Vmm.Release.{unmap_range-absent}
use kolibriarm.Process.{Process, Region, user_mmap_limit}
use kolibriarm.Process.Regions.{remove_user_region_info}
use kolibriarm.Process.Regions.Inv.{IsValid, region}
use kolibriarm.Process.Regions.Alloc.{page_up}
use kolibriarm.Process.Regions.Undo.{SameRegions, undo_lem}
use kolibriarm.Process.Regions.Mapping.{Recorded, set_user_region_mapping_lem}
use kolibriarm.Process.Resources.{owned_pages}
use kolibriarm.UserVm.{
  MapResult, address, nomem, inval, page_align_up, flags_to_vmm, map_frames, own_mapping,
  finish_anonymous, undo_anonymous,
}
use kolibriarm.UserVm.Kept.{taken-Tree}

-- No page is mapped between where the next mapping may start and the limit.
abbrev pub Vacant : Process → Vm → Type 0
Vacant p s =
    (w : ℕ)
    → p.next_user_vaddr ≤ page_of w * 4096
    → page_of w * 4096 < user_mmap_limit
    → mapping p.page_table s w ≡ 0

-- A fresh region of n pages is mapped to n frames that were free; or the regions and every page's
-- mapping are as before.
pub data AnonymousOutcome (p : Process) (size flags : ℕ) (s : Vm) (r : MapResult × Process × Vm)
    : Type 0 where
  mapped :
      (addr n f access : ℕ)
      → r.0 ≡ address addr
      → addr ≡ page_up p.next_user_vaddr
      → n * 4096 ≡ page_up size
      → flags_to_vmm flags ≡ some access
      → ((q : ℕ) → f ≤ q → q < f + n → taken s.pmm.bitmap q ≡ 0)
      → r.1.user_region_count ≡ p.user_region_count + 1
      → region r.1 p.user_region_count ≡ record {
        start = addr;
        end = addr + n * 4096;
        paddr = s.pmm.mem_base + f * 4096;
        flags = owned_pages;
      }
      → ((i : ℕ) → i < p.user_region_count → region r.1 i ≡ region p i)
      → r.1.next_user_vaddr ≡ addr + n * 4096
      → IsValid r.1
      → Tree p.page_table r.2
      → ((w : ℕ)
          → mapping p.page_table r.2 w ≡ (
              if within (addr / 4096) n w
              then frame_entry (addr / 4096) (s.pmm.mem_base / 4096 + f) access w
              else mapping p.page_table s w))
      → AnonymousOutcome p size flags s r
  refused :
      (r.0 ≡ nomem) ⊎ (r.0 ≡ inval)
      → SameRegions p r.1
      → ((w : ℕ) → mapping p.page_table r.2 w ≡ mapping p.page_table s w)
      → AnonymousOutcome p size flags s r

-- Rounding a size up to whole pages, 0 where it does not fit.
pub page_align_up_lem :
    (size : ℕ)
    → size < 2 ^ 64
    → page_align_up size ≢ 0
    → (page_align_up size ≡ page_up size) × (page_up size < 2 ^ 64)
unfolding page_align_up
page_align_up_lem size h nz =
    elim (Bool-cases (size == 0 || ltb (u64_max - (page_size - 1)) size)) [
      | inl bad ↦ absurd (nz (rw bad refl))
      | inr good ↦
          let sum : u64 (size + page_size - 1) ≡ size + 4095 = ground arith in
          let small : size + 4095 < 2 ^ 64 = ground arith in
          rw good (
            ap (λ x. bit_and x (complement64 (page_size - 1))) sum
                ∙ align_down_lem (size + 4095) small,
            omega arith,
          )
    ]

-- n pages from `addr` on have become a region of `q`, and no page of them is mapped.
pub record Reserved (p : Process) (s : Vm) (q : Process) (size addr n : ℕ) : Type 0 where
  pub start : addr ≡ page_up p.next_user_vaddr
  pub pages : n * 4096 ≡ page_up size
  pub pos : 0 < n
  pub limit : addr + n * 4096 ≤ user_mmap_limit
  pub next : q.next_user_vaddr ≡ addr + n * 4096
  pub count : q.user_region_count ≡ p.user_region_count + 1
  pub new :
      region q p.user_region_count
      ≡ record { start = addr; end = addr + n * 4096; paddr = 0; flags = 0 }
  pub old : (i : ℕ) → i < p.user_region_count → region q i ≡ region p i
  pub valid : IsValid q
  pub table : q.page_table ≡ p.page_table
  pub vacant : Vacant p s
  pub tree : Tree p.page_table s

module _ {p : Process} {s : Vm} {q : Process} {size addr n : ℕ}
    (h : Reserved p s q size addr n) where
  removed-SameRegions : SameRegions p (remove_user_region_info q addr (n * 4096)).1
  removed-SameRegions = undo_lem p q addr (n * 4096) h.valid (omega (arith, h.limit)) (record {
    count = h.count;
    starts = ap (λ (x : Region). x.start) h.new;
    ends = ap (λ (x : Region). x.end) h.new;
    others = h.old;
  })

  -- Undoing changes no page's mapping, for none of the region is mapped.
  undo_anonymous_lem :
      (flags paddr : ℕ) (error : MapResult) (u : Vm)
      → (error ≡ nomem) ⊎ (error ≡ inval)
      → Tree p.page_table u
      → ((w : ℕ) → mapping p.page_table u w ≡ mapping p.page_table s w)
      → AnonymousOutcome p size flags s (undo_anonymous error addr (n * 4096) paddr q u)
  undo_anonymous_lem flags paddr error u e tree same =
      let nothing : mapping p.page_table u (addr / page_size * page_size) ≡ 0 =
        same (addr / page_size * page_size)
        ∙ h.vacant (addr / page_size * page_size) (omega (arith, h.start, h.limit, h.pos))
            (omega (arith, h.start, h.limit, h.pos)) in
      let stays : unmap_range q.page_table addr (n * 4096) u ≡ (failed, u) =
        ap (λ t. unmap_range t addr (n * 4096) u) h.table
        ∙ unmap_range-absent p.page_table addr (n * 4096) u tree (omega (arith, h.pos))
            (omega (arith, h.limit)) nothing in
      refused e removed-SameRegions
        (λ w. ap (λ (x : Status × Vm). mapping p.page_table x.1 w) stays ∙ same w)

  -- The frames, which were free, are mapped and recorded.
  finish_lem :
      (flags access f : ℕ) (t u : Vm) (r : Status × Process)
      → flags_to_vmm flags ≡ some access
      → t.memory ≡ s.memory
      → ((i : ℕ) → f ≤ i → i < f + n → taken s.pmm.bitmap i ≡ 0)
      → Filled (addr / 4096) n (s.pmm.mem_base / 4096 + f) access p.page_table t u
      → Recorded q p.user_region_count (s.pmm.mem_base + f * 4096) owned_pages r
      → AnonymousOutcome p size flags s
          (finish_anonymous addr (n * 4096) (s.pmm.mem_base + f * 4096) u q r)
  finish_lem flags access f t u (failed, done) e m free full rec =
      absurd (ground (arith, rec.status))
  finish_lem flags access f t u (ok, done) e m free full rec =
      let bounds : record {
        start = (region q p.user_region_count).start;
        end = (region q p.user_region_count).end;
        paddr = s.pmm.mem_base + f * 4096;
        flags = owned_pages;
      }
          ≡ record {
            start = addr;
            end = addr + n * 4096;
            paddr = s.pmm.mem_base + f * 4096;
            flags = owned_pages;
          } =
        ap
          (λ (x : Region). record {
            start = x.start;
            end = x.end;
            paddr = s.pmm.mem_base + f * 4096;
            flags = owned_pages;
          })
          h.new in
      mapped addr n f access refl h.start h.pages e free (rec.count ∙ h.count) (rec.here ∙ bounds)
        (λ i k. rec.others i (omega arith) ∙ h.old i k) (rec.next ∙ h.next) rec.valid full.tree
        (λ w.
          full.view w
          ∙ ap
              (λ x.
                if within (addr / 4096) n w
                then frame_entry (addr / 4096) (s.pmm.mem_base / 4096 + f) access w
                else x)
              (ap (λ x. mapping p.page_table (record s { memory = x }) w) m))

  own_mapping_lem :
      (flags access f : ℕ) (t : Vm) (r : Status × Vm)
      → flags_to_vmm flags ≡ some access
      → t.memory ≡ s.memory
      → ((i : ℕ) → f ≤ i → i < f + n → taken s.pmm.bitmap i ≡ 0)
      → RoundsOutcome (addr / 4096) n (s.pmm.mem_base / 4096 + f) access p.page_table t r
      → AnonymousOutcome p size flags s
          (own_mapping addr (n * 4096) (s.pmm.mem_base + f * 4096) q r)
  own_mapping_lem flags access f t (ok, u) e m free (rolled_back status tree view why) =
      absurd (ground arith)
  own_mapping_lem flags access f t (failed, u) e m free (filled status full) = absurd (ground arith)
  own_mapping_lem flags access f t (failed, u) e m free (rolled_back status tree view why) =
      undo_anonymous_lem flags (s.pmm.mem_base + f * 4096) nomem u (inl refl) tree
        (λ w. view w ∙ ap (λ x. mapping p.page_table (record s { memory = x }) w) m)
  own_mapping_lem flags access f t (ok, u) e m free (filled status full) =
      finish_lem flags access f t u _ e m free full (
        set_user_region_mapping_lem q p.user_region_count addr (n * 4096)
          (s.pmm.mem_base + f * 4096) owned_pages h.valid (omega (arith, h.count))
          (ap (λ (x : Region). x.start) h.new) (ap (λ (x : Region). x.end) h.new))

  pub map_frames_lem :
      (flags access : ℕ) (r : ℕ × Pmm)
      → flags_to_vmm flags ≡ some access
      → RunOutcome s.pmm n r
      → AnonymousOutcome p size flags s (map_frames addr (n * 4096) access q s r)
  map_frames_lem flags access r e (no_run same why) =
      subst (λ x. AnonymousOutcome p size flags s (map_frames addr (n * 4096) access q s x))
        (sym same) (refused (inl refl) removed-SameRegions (λ w. refl))
  map_frames_lem flags access (paddr, left) e (run f some_pages inside free lowest at marks count) =
      let here : paddr == 0 ≡ false = ground (arith, h.tree.above) in
      let base : s.pmm.mem_base % page_size ≡ 0 = h.tree.pages.aligned in
      let frame : (s.pmm.mem_base + f * page_size) / page_size ≡ s.pmm.mem_base / 4096 + f =
        omega arith in
      let pages_there : page_count addr (n * 4096) ≡ n = omega (arith, h.start) in
      let t = record s { pmm = left } in
      let rounds =
        map_range_lem p.page_table addr (s.pmm.mem_base + f * page_size) (n * 4096) access t
          (taken-Tree p.page_table f n s left h.tree marks) (omega arith)
          (omega (arith, h.start, h.tree.pages.aligned)) (omega (arith, h.limit))
          (omega (arith, h.tree.low, h.limit)) in
      rw here (
        subst
          (λ (x : ℕ × ℕ).
            AnonymousOutcome p size flags s
              (own_mapping addr (n * 4096) x.0 q (map_range x.1 addr x.0 (n * 4096) access t)))
          (λ i. (sym at i, sym h.table i))
          (own_mapping_lem flags access f t _ e refl free (
            subst₂
              (λ c k.
                RoundsOutcome (addr / 4096) c k access p.page_table t (
                  map_range p.page_table addr (s.pmm.mem_base + f * page_size) (n * 4096) access t))
              pages_there frame rounds)))
