-- ===== src/Vmm/Root.antt =====
-- `vmm_new_table` of kernel/mm/vmm.c: the root of a tree that maps no page.
use mathlib.Core.Bool.{false≢true}
use kolibriarm.Base.{
  ℕ, zero, suc, ◌+◌, ◌*◌, ◌^◌, ◌<◌, ◌≤◌, ◌≡◌, ◌≢◌, refl, sym, ap, ◌∙◌, subst, true, false, Option,
  none, some, ◌==◌, if◌then◌else◌, arith,
}
use kolibriarm.Pmm.{Pmm, page_size, alloc_page}
use kolibriarm.Pmm.Pages.{taken}
use kolibriarm.Pmm.Inv as PmmInv
use kolibriarm.Pmm.Alloc.{PageOutcome, page, exhausted, alloc_page_lem}
use kolibriarm.Vmm.{
  Vm, entry_of, has, desc_valid, table_index, leaf_entry, new_table, zeroed, zero_table,
}
use kolibriarm.Vmm.Memory.{zero_table_in, zero_table_out}
use kolibriarm.Vmm.Entry.{table_index_lt, has_zero}
use kolibriarm.Vmm.Walk.{reach, agree, reach_stopped}
use kolibriarm.Vmm.Tree.{Tree, Owned, leaf_entry-reach}

-- The allocator's pages lie in the addresses that a descriptor can hold, and none at 0.
pub record Fitting (pmm : Pmm) : Type 0 where
  pub pages : PmmInv.IsValid pmm
  pub low : pmm.mem_base + pmm.total_pages * page_size ≤ 2 ^ 48
  pub above : 0 < pmm.mem_base

module _ (pgd : ℕ) (s : Vm) (zeros : (j : ℕ) → j < 512 → s.memory (entry_of pgd j) ≡ 0) where
  one_level : (v : ℕ) → reach 1 v pgd s.memory ≡ none
  unfolding reach
  one_level v =
      let word : s.memory (entry_of pgd (table_index v 0)) ≡ 0 =
        zeros (table_index v 0) (table_index_lt v 0) in
      rw (word, has_zero) refl

  only_root : (l v t : ℕ) → reach l v pgd s.memory ≡ some t → (l ≡ 0) × (pgd ≡ t)
  unfolding reach
  only_root zero v t e = (refl, ground arith)
  only_root (suc l) v t e =
      absurd (ground (arith, reach_stopped 1 (suc l) v pgd s.memory (omega arith) (one_level v)))

  pub empty-Tree : Fitting s.pmm → Owned s.pmm pgd → Tree pgd s
  empty-Tree f root = record {
    pages = f.pages;
    low = f.low;
    above = f.above;
    owned = λ l v t h r. subst (Owned s.pmm) (only_root l v t r).1 root;
    apart = λ l v k w t h i r q.
        let a = (only_root l v t r).0 in
        let b = (only_root k w t q).0 in (a ∙ sym b, subst (λ x. agree x v w ≡ true) (sym a) refl);
    tables = λ l v t h r e.
        let (top, same) = only_root l v t r in
        let word : s.memory (entry_of t (table_index v l)) ≡ 0 =
          ap (λ x. s.memory (entry_of x (table_index v l))) (sym same)
          ∙ zeros (table_index v l) (table_index_lt v l) in
        absurd (false≢true (sym has_zero ∙ ap (λ x. has x desc_valid) (sym word) ∙ e));
  }

  pub empty_leaf : pgd ≢ 0 → (w : ℕ) → leaf_entry pgd w s.memory ≡ 0
  empty_leaf nz w =
      leaf_entry-reach pgd w s.memory nz (λ t h e.
        absurd (ground (arith, reach_stopped 1 3 w pgd s.memory (omega arith) (one_level w))))
      ∙ rw (reach_stopped 1 3 w pgd s.memory (omega arith) (one_level w)) refl

-- The lowest free page has become a table of which a tree grows that maps nothing, and no other page
-- of the allocator and no word outside the table has changed; or no page is free.
pub data RootOutcome (s : Vm) (r : Option ℕ × Vm) : Type 0 where
  root :
      (pgd p : ℕ)
      → r.0 ≡ some pgd
      → p < s.pmm.total_pages
      → taken s.pmm.bitmap p ≡ 0
      → ((q : ℕ) → q < p → taken s.pmm.bitmap q ≡ 1)
      → pgd ≡ s.pmm.mem_base + p * page_size
      → ((q : ℕ) → taken r.1.pmm.bitmap q ≡ (if p == q then 1 else taken s.pmm.bitmap q))
      → r.1.pmm.free_pages + 1 ≡ s.pmm.free_pages
      → ((a : ℕ) → ((j : ℕ) → j < 512 → a ≢ entry_of pgd j) → r.1.memory a ≡ s.memory a)
      → Tree pgd r.1
      → ((w : ℕ) → leaf_entry pgd w r.1.memory ≡ 0)
      → RootOutcome s r
  no_page :
      r ≡ (none, s) → ((q : ℕ) → q < s.pmm.total_pages → taken s.pmm.bitmap q ≡ 1) → RootOutcome s r

zeroed_lem :
    (s : Vm) (r : ℕ × Pmm) → Fitting s.pmm → PageOutcome s.pmm r → RootOutcome s (zeroed s.memory r)
zeroed_lem s r f (exhausted same used) =
    subst (λ x. RootOutcome s (zeroed s.memory x)) (sym same) (no_page refl used)
zeroed_lem s (c, left) f (page p h free lowest at marks count) =
    let some_page : c == 0 ≡ false = ground (arith, f.above) in
    let u : Vm = record { pmm = left; memory = zero_table c s.memory } in
    let zeros : (j : ℕ) → j < 512 → zero_table c s.memory (entry_of c j) ≡ 0 =
      λ j k. zero_table_in c j s.memory k in
    let fitting : Fitting left = record {
      pages = marks.valid;
      low = omega (arith, f.low, marks.base, marks.total);
      above = omega (arith, f.above, marks.base);
    } in
    let owned : Owned left c =
      (p, omega (arith, marks.total), omega (arith, marks.base), marks.bits p ∙ ground arith) in
    rw some_page (
      root c p refl h free lowest at (λ q. marks.bits q ∙ ground arith) count
        (λ a out. zero_table_out c a s.memory out) (empty-Tree c u zeros fitting owned)
        (empty_leaf c u zeros (ground arith)))

-- On a valid allocator whose pages lie below 2^48 and not at 0, `vmm_new_table` returns the address of
-- the lowest free page, marks that page used and no other, lowers the free count by one, writes no word
-- outside the page's 512, and makes the page the root of a valid tree that has no entry for any page;
-- or it returns null and changes nothing, and every managed page is used.
pub new_table_lem : (s : Vm) → Fitting s.pmm → RootOutcome s (new_table s)
unfolding new_table
new_table_lem s f = zeroed_lem s (alloc_page s.pmm) f (alloc_page_lem s.pmm f.pages)
