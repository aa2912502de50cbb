-- ===== src/Vmm/Release.antt =====
-- `vmm_unmap_range` of kernel/mm/vmm.c.
use mathlib.Core.Bool.{false≢true}
use kolibriarm.Base.{
  ℕ, zero, suc, ◌+◌, ◌-◌, ◌*◌, ◌/◌, ◌%◌, ◌^◌, ◌<◌, ◌≤◌, ◌≡◌, ◌≢◌, refl, sym, ap, ◌∙◌, subst, subst₂,
  true, false, some, ltb, ◌==◌, Status, ok, failed, u64, u64_max, sub64, arith, Bool-cases, inl,
  inr,
}
use kolibriarm.Pmm.{page_size}
use kolibriarm.Vmm.{
  Vm, has, desc_valid, leaf_entry, unmap_page, unmap_range, unmap_from, page_align_down, page_span,
  map_range,
}
use kolibriarm.Vmm.Entry.{has_zero, page_descriptor-Points}
use kolibriarm.Vmm.Walk.{same_page}
use kolibriarm.Vmm.Tree.{Tree, root_pos}
use kolibriarm.Vmm.Unmap.{
  mapping, valid_part, within, page_of, Undone, Undone-step, UnmapOutcome, unmapped, absent,
  unmap_page_lem, unmap_mapping, unmap_kept,
}
use kolibriarm.Vmm.Rounds.{RoundsOutcome, filled, rolled_back, frame_entry, valid_part_valid}
use kolibriarm.Vmm.Range.{map_range_lem, page_count, align_down_lem, page_span_lem}

not_valid : (e : ℕ) → valid_part e ≡ 0 → has e desc_valid ≡ false
not_valid e z = elim (Bool-cases (has e desc_valid)) [
  | inr off ↦ off
  | inl on ↦ (let e_zero : e ≡ 0 = (rw on at z) in ap (λ x. has x desc_valid) e_zero ∙ has_zero)
]

is_valid : (e : ℕ) → valid_part e ≢ 0 → has e desc_valid ≡ true
is_valid e nz = elim (Bool-cases (has e desc_valid)) [
  | inl on ↦ on
  | inr off ↦ absurd (nz (rw off refl))
]

released :
    (pgd vaddr size : ℕ) (s : Vm)
    → pgd ≢ 0
    → 0 < size
    → vaddr / page_size + page_count vaddr size ≤ 2 ^ 36
    → unmap_range pgd vaddr size s
      ≡ unmap_from (page_count vaddr size) 0 pgd (vaddr / page_size * page_size) s
unfolding unmap_range
released pgd vaddr size s nz pos span =
    let root : pgd == 0 ≡ false = ground arith in
    let some_size : size == 0 ≡ false = ground arith in
    let low : page_align_down vaddr ≡ vaddr / page_size * page_size =
      align_down_lem vaddr (omega arith) in
    let offset : sub64 vaddr (vaddr / page_size * page_size) ≡ vaddr % page_size = omega arith in
    let end : page_span (vaddr % page_size) size ≡ some (page_count vaddr size * page_size) =
      page_span_lem (vaddr % page_size) size pos (omega arith) (omega arith) in
    let fits : ltb (u64_max - page_count vaddr size * page_size) (vaddr / page_size * page_size)
        ≡ false =
      ground arith in
    let rounds : page_count vaddr size * page_size / page_size ≡ page_count vaddr size =
      omega arith in
    rw (root, some_size, low, offset, end, fits, rounds) refl

-- A round of the loop: it goes on from a page that has been unmapped.
abbrev after : (Vm → Status × Vm) → Status × Vm → Status × Vm
after rest r = elim r.0 as (λ x. Status × Vm) [ ok ↦ rest r.1 | failed ↦ (failed, r.1) ]

after-absent :
    (pgd vaddr : ℕ) (rest : Vm → Status × Vm) (s : Vm) (r : Status × Vm)
    → mapping pgd s vaddr ≡ 0
    → UnmapOutcome pgd vaddr s r
    → after rest r ≡ (failed, s)
after-absent pgd vaddr rest s r z (absent e why) = ap (after rest) e
after-absent pgd vaddr rest s r z (unmapped b valid e entries same tree) =
    absurd (false≢true (sym (not_valid (leaf_entry pgd vaddr s.memory) z) ∙ valid))

after-mapped :
    (pgd vaddr : ℕ) (rest : Vm → Status × Vm) (s : Vm) (r : Status × Vm)
    → mapping pgd s vaddr ≢ 0
    → vaddr % page_size ≡ 0
    → UnmapOutcome pgd vaddr s r
    → after rest r ≡ rest r.1
after-mapped pgd vaddr rest s (ok, u) nz a (unmapped b valid e entries same tree) = refl
after-mapped pgd vaddr rest s (failed, u) nz a (unmapped b valid e entries same tree) =
    absurd (ground arith)
after-mapped pgd vaddr rest s r nz a (absent e (inl odd)) = absurd (odd a)
after-mapped pgd vaddr rest s r nz a (absent e (inr vacant)) =
    absurd (false≢true (sym vacant ∙ is_valid (leaf_entry pgd vaddr s.memory) nz))

-- The first page is not mapped.
pub unmap_range-absent :
    (pgd vaddr size : ℕ) (s : Vm)
    → Tree pgd s
    → 0 < size
    → vaddr / page_size + page_count vaddr size ≤ 2 ^ 36
    → mapping pgd s (vaddr / page_size * page_size) ≡ 0
    → unmap_range pgd vaddr size s ≡ (failed, s)
unfolding unmap_from
unmap_range-absent pgd vaddr size s tree pos span none_there =
    let start = vaddr / page_size * page_size in
    let address : start ≡ u64 (start + 0) = omega arith in
    let count : suc (page_count vaddr size - 1) ≡ page_count vaddr size = omega arith in
    released pgd vaddr size s (root_pos pgd s tree) pos span
    ∙ subst (λ n. unmap_from n 0 pgd start s ≡ (failed, s)) count
        (subst
          (λ a.
            after (λ u. unmap_from (page_count vaddr size - 1) page_size pgd start u)
              (unmap_page pgd a s)
            ≡ (failed, s))
          address
          (after-absent pgd start (unmap_from (page_count vaddr size - 1) page_size pgd start) s _
            none_there (unmap_page_lem pgd start s tree)))

-- Every page of the span has been unmapped, and no other.
pub record Released (first n pgd : ℕ) (s : Vm) (r : Status × Vm) : Type 0 where
  pub status : r.0 ≡ ok
  pub undone : Undone first n pgd s r.1

unmap_from-Released :
    (n first k pgd : ℕ) (s : Vm)
    → Tree pgd s
    → first + k + n ≤ 2 ^ 36
    → ((w : ℕ) → within (first + k) n w ≡ true → mapping pgd s w ≢ 0)
    → Released (first + k) n pgd s (unmap_from n (k * page_size) pgd (first * page_size) s)
unfolding unmap_from
unmap_from-Released zero first k pgd s tree h all = record {
  status = refl;
  undone = record { tree = tree; pmm = refl; view = λ w. ground arith };
}
unmap_from-Released (suc n) first k pgd s tree h all =
    let va = (first + k) * page_size in
    let address : va ≡ u64 (first * page_size + k * page_size) = omega arith in
    let offset : (k + 1) * page_size ≡ k * page_size + page_size = omega arith in
    let place : first + (k + 1) ≡ first + k + 1 = omega arith in
    let o = unmap_page_lem pgd va s tree in
    let (kept, same) = unmap_kept pgd va s _ tree o in
    let still : (w : ℕ)
        → within (first + (k + 1)) n w ≡ true
        → mapping pgd (unmap_page pgd va s).1 w ≢ 0 =
      λ w inside z.
        let other : same_page va w ≡ false = ground arith in
        all w (ground arith)
          (sym (unmap_mapping pgd va s _ tree o (omega arith) w ∙ rw other refl) ∙ z) in
    let rest =
      unmap_from-Released n first (k + 1) pgd (unmap_page pgd va s).1 kept (omega arith) still in
    let on =
      after-mapped pgd va (λ u. unmap_from n ((k + 1) * page_size) pgd (first * page_size) u) s _
        (all va (ground arith)) (omega arith) o in
    subst
      (λ (x : ℕ × ℕ).
        Released (first + k) (suc n) pgd s
          (after (λ u. unmap_from n x.1 pgd (first * page_size) u) (unmap_page pgd x.0 s)))
      (λ i. (address i, offset i))
      (record {
        status = ap (λ (x : Status × Vm). x.0) on ∙ rest.status;
        undone = Undone-step (first + k) n pgd s _ tree (omega arith) (
            subst₂ (λ f u. Undone f n pgd (unmap_page pgd va s).1 u) place
              (ap (λ (x : Status × Vm). x.1) (sym on)) rest.undone);
      })

-- On a tree of tables whose pages the allocator manages, for a span of at least a byte in the lower
-- 2^48 addresses: `vmm_unmap_range` unmaps every page of the span if all are mapped, changes no other
-- page's mapping and no page of the allocator, and keeps the tree valid.
pub unmap_range_lem :
    (pgd vaddr size : ℕ) (s : Vm)
    → Tree pgd s
    → 0 < size
    → vaddr / page_size + page_count vaddr size ≤ 2 ^ 36
    → ((w : ℕ) → within (vaddr / page_size) (page_count vaddr size) w ≡ true → mapping pgd s w ≢ 0)
    → Released (vaddr / page_size) (page_count vaddr size) pgd s (unmap_range pgd vaddr size s)
unmap_range_lem pgd vaddr size s tree pos span all =
    let start : vaddr / page_size + 0 ≡ vaddr / page_size = omega arith in
    subst (Released (vaddr / page_size) (page_count vaddr size) pgd s)
      (sym (released pgd vaddr size s (root_pos pgd s tree) pos span))
      (subst
        (λ f.
          Released f (page_count vaddr size) pgd s
            (unmap_from (page_count vaddr size) 0 pgd (vaddr / page_size * page_size) s))
        start
        (unmap_from-Released (page_count vaddr size) (vaddr / page_size) 0 pgd s tree (omega arith)
          (λ w inside. all w (ground arith))))

unmap_range-filled :
    (pgd vaddr paddr size flags : ℕ) (s : Vm) (r : Status × Vm)
    → 0 < size
    → vaddr / page_size + page_count vaddr size ≤ 2 ^ 36
    → r.0 ≡ ok
    → RoundsOutcome (vaddr / page_size) (page_count vaddr size) (paddr / page_size) flags pgd s r
    → ((unmap_range pgd vaddr size r.1).0 ≡ ok)
      × ((w : ℕ) → mapping pgd (unmap_range pgd vaddr size r.1).1 w ≡ mapping pgd s w)
unmap_range-filled pgd vaddr paddr size flags s (failed, u) pos span e o = absurd (ground arith)
unmap_range-filled pgd vaddr paddr size flags s (ok, u) pos span e (rolled_back f tree view why) =
    absurd (ground arith)
unmap_range-filled pgd vaddr paddr size flags s (ok, u) pos span e (filled g f) =
    let first = vaddr / page_size in
    let n = page_count vaddr size in
    let done = unmap_range_lem pgd vaddr size u f.tree pos span (λ w inside.
      let entry : mapping pgd u w ≡ frame_entry first (paddr / page_size) flags w =
        f.view w ∙ rw inside refl in
      λ z.
        (valid_part_valid (frame_entry first (paddr / page_size) flags w)
            (page_descriptor-Points ((paddr / page_size + (page_of w - first)) * page_size)
              flags).valid).1
          (sym entry ∙ z)) in
    (
      done.status,
      λ w. done.undone.view w ∙ elim (Bool-cases (within first n w)) [
        | inl inside ↦ rw inside (sym (f.vacant w inside))
        | inr outside ↦ rw outside (f.view w ∙ rw outside refl)
      ],
    )

-- On a tree of tables whose pages the allocator manages, for a span of at least a byte that lies in
-- the lower 2^48 addresses and whose frames end below 2^64, with both addresses at the same offset
-- of their pages: after a successful `vmm_map_range`, `vmm_unmap_range` of the same span succeeds,
-- and every page of the address space is then mapped as before both.
pub unmap_range-map_range :
    (pgd vaddr paddr size flags : ℕ) (s : Vm)
    → Tree pgd s
    → 0 < size
    → vaddr % page_size ≡ paddr % page_size
    → vaddr / page_size + page_count vaddr size ≤ 2 ^ 36
    → paddr / page_size + page_count vaddr size < 2 ^ 52
    → (map_range pgd vaddr paddr size flags s).0 ≡ ok
    → let mapped_state = (map_range pgd vaddr paddr size flags s).1 in
      let r = unmap_range pgd vaddr size mapped_state in
      (r.0 ≡ ok) × ((w : ℕ) → mapping pgd r.1 w ≡ mapping pgd s w)
unmap_range-map_range pgd vaddr paddr size flags s tree pos same span frames e =
    unmap_range-filled pgd vaddr paddr size flags s _ pos span e
      (map_range_lem pgd vaddr paddr size flags s tree pos same span frames)
