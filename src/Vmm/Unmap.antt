-- ===== src/Vmm/Unmap.antt =====
-- `vmm_unmap_page` of kernel/mm/vmm.c, and the rounds of `vmm_map_range` that undo a mapping.
use kolibriarm.Base.{
  ℕ, zero, suc, ◌+◌, ◌*◌, ◌/◌, ◌%◌, ◌^◌, ◌≤◌, ◌≡◌, ◌≢◌, ◌⊎◌, refl, sym, ap, ◌∙◌, subst, subst₂,
  Bool, true, false, ◌&&◌, Option, none, some, ◌==◌, ltb, leb, arith, if◌then◌else◌, Bool-cases,
  inl, inr, Status, ok, failed, ==→eq, u64,
}
use kolibriarm.Pmm.{page_size}
use kolibriarm.Vmm.{
  Vm, entry_of, has, desc_valid, table_index, leaf_entry, unmap_page, clear_leaf, read_leaf,
  undo_from,
}
use kolibriarm.Vmm.Entry.{has_zero}
use kolibriarm.Vmm.Walk.{reach, same_page, leaf_from-reach}
use kolibriarm.Vmm.Tree.{Tree, leaf_entry-Tree, Tree-IsReal, leaf_entry-same_page, root_pos}
use kolibriarm.Vmm.Leaf.{written, written-Tree, leaf_entry-written}
use kolibriarm.Vmm.Map.{aligned_lem}

-- The entry of a page, 0 where it is not valid.
abbrev pub valid_part : ℕ → ℕ
valid_part e = if has e desc_valid then e else 0

abbrev pub mapping : ℕ → Vm → ℕ → ℕ
mapping pgd s w = valid_part (leaf_entry pgd w s.memory)

-- The page's entry has been cleared and no other has changed, or there was none.
pub data UnmapOutcome (pgd vaddr : ℕ) (s : Vm) (r : Status × Vm) : Type 0 where
  unmapped :
      vaddr % page_size ≡ 0
      → has (leaf_entry pgd vaddr s.memory) desc_valid ≡ true
      → r.0 ≡ ok
      → ((w : ℕ)
          → leaf_entry pgd w r.1.memory
            ≡ (if same_page vaddr w then 0 else leaf_entry pgd w s.memory))
      → r.1.pmm ≡ s.pmm
      → Tree pgd r.1
      → UnmapOutcome pgd vaddr s r
  absent :
      r ≡ (failed, s)
      → (vaddr % page_size ≢ 0) ⊎ (has (leaf_entry pgd vaddr s.memory) desc_valid ≡ false)
      → UnmapOutcome pgd vaddr s r

clear_leaf_lem :
    (pgd vaddr : ℕ) (s : Vm) (o : Option ℕ)
    → Tree pgd s
    → vaddr % page_size ≡ 0
    → reach 3 vaddr pgd s.memory ≡ o
    → UnmapOutcome pgd vaddr s (clear_leaf vaddr s o)
unfolding written
clear_leaf_lem pgd vaddr s none tree a r = absent refl (
    inr (
      ap (λ e. has e desc_valid)
        (leaf_entry-Tree pgd vaddr s tree ∙ ap (read_leaf vaddr s.memory) r)
      ∙ has_zero))
clear_leaf_lem pgd vaddr s (some t) tree a r =
    let leaf : leaf_entry pgd vaddr s.memory ≡ s.memory (entry_of t (table_index vaddr 3)) =
      leaf_entry-Tree pgd vaddr s tree ∙ ap (read_leaf vaddr s.memory) r in
    elim (Bool-cases (has (s.memory (entry_of t (table_index vaddr 3))) desc_valid)) [
      | inl valid ↦ rw valid (
          unmapped a (ap (λ e. has e desc_valid) leaf ∙ valid) refl
            (leaf_entry-written pgd s tree vaddr t 0 r) refl (written-Tree pgd s tree vaddr t 0 r))
      | inr vacant ↦ rw vacant (absent refl (inr (ap (λ e. has e desc_valid) leaf ∙ vacant)))
    ]

-- On a tree of tables whose pages the allocator manages, `vmm_unmap_page` clears the entry of the page
-- of an aligned address that has a valid one, changes no other page's entry and no page of the
-- allocator, and keeps the tree valid; otherwise it fails and changes nothing.
pub unmap_page_lem :
    (pgd vaddr : ℕ) (s : Vm) → Tree pgd s → UnmapOutcome pgd vaddr s (unmap_page pgd vaddr s)
unfolding unmap_page
unmap_page_lem pgd vaddr s tree =
    let root : pgd == 0 ≡ false = ground (arith, root_pos pgd s tree) in
    rw (root, aligned_lem vaddr)
      (elim (Bool-cases (vaddr % page_size == 0)) [
        | inr odd ↦ rw odd (absent refl (inl (ground arith)))
        | inl even ↦ rw even (
            subst (λ o. UnmapOutcome pgd vaddr s (clear_leaf vaddr s o))
              (sym (leaf_from-reach vaddr pgd s.memory (Tree-IsReal pgd vaddr s tree)))
              (clear_leaf_lem pgd vaddr s (reach 3 vaddr pgd s.memory) tree
                (==→eq (vaddr % page_size) 0 even) refl))
      ])

-- The number of an address's page.
abbrev pub page_of : ℕ → ℕ
page_of w = w / 4096 % 2 ^ 36

abbrev pub within : ℕ → ℕ → ℕ → Bool
within first n w = leb first (page_of w) && ltb (page_of w) (first + n)

pub unmap_mapping :
    (pgd vaddr : ℕ) (s : Vm) (r : Status × Vm)
    → Tree pgd s
    → UnmapOutcome pgd vaddr s r
    → vaddr % page_size ≡ 0
    → (w : ℕ) → mapping pgd r.1 w ≡ (if same_page vaddr w then 0 else mapping pgd s w)
unmap_mapping pgd vaddr s r t (unmapped a valid e entries same tree) b w =
    ap valid_part (entries w) ∙ elim (Bool-cases (same_page vaddr w)) [
      | inl here ↦ rw here (rw has_zero refl)
      | inr there ↦ rw there refl
    ]
unmap_mapping pgd vaddr s r t (absent same (inl odd)) b w = absurd (odd b)
unmap_mapping pgd vaddr s r t (absent same (inr vacant)) b w =
    ap (λ x. mapping pgd x.1 w) same ∙ elim (Bool-cases (same_page vaddr w)) [
      | inr there ↦ rw there refl
      | inl here ↦
          ap valid_part (sym (leaf_entry-same_page pgd vaddr w s t here)) ∙ rw (vacant, here) refl
    ]

pub unmap_kept :
    (pgd vaddr : ℕ) (s : Vm) (r : Status × Vm)
    → Tree pgd s
    → UnmapOutcome pgd vaddr s r
    → Tree pgd r.1 × (r.1.pmm ≡ s.pmm)
unmap_kept pgd vaddr s r t (unmapped a valid e entries same tree) = (tree, same)
unmap_kept pgd vaddr s r t (absent same why) =
    (subst (λ x. Tree pgd x.1) (sym same) t, ap (λ x. x.1.pmm) same)

-- The pages from `first` on are clear, the others as they were.
pub record Undone (first n pgd : ℕ) (s u : Vm) : Type 0 where
  pub tree : Tree pgd u
  pub pmm : u.pmm ≡ s.pmm
  pub view : (w : ℕ) → mapping pgd u w ≡ (if within first n w then 0 else mapping pgd s w)

-- One page at a time.
pub Undone-step :
    (first n pgd : ℕ) (s u : Vm)
    → Tree pgd s
    → first + suc n ≤ 2 ^ 36
    → Undone (first + 1) n pgd (unmap_page pgd (first * page_size) s).1 u
    → Undone first (suc n) pgd s u
Undone-step first n pgd s u tree h rest =
    let o = unmap_page_lem pgd (first * page_size) s tree in
    let (kept, same) = unmap_kept pgd (first * page_size) s _ tree o in
    record {
      tree = rest.tree;
      pmm = rest.pmm ∙ same;
      view = λ w.
          rest.view w
          ∙ ap (λ x. if within (first + 1) n w then 0 else x)
              (unmap_mapping pgd (first * page_size) s _ tree o (omega arith) w)
          ∙ ground arith;
    }

-- Undoing n rounds of a mapping clears the n pages.
pub undo_from-Undone :
    (n first k pgd : ℕ) (s : Vm)
    → Tree pgd s
    → first + k + n ≤ 2 ^ 36
    → Undone (first + k) n pgd s (undo_from n (k * page_size) pgd (first * page_size) s)
unfolding undo_from
undo_from-Undone zero first k pgd s tree h = record {
  tree = tree;
  pmm = refl;
  view = λ w. ground arith;
}
undo_from-Undone (suc n) first k pgd s tree h =
    let address : u64 (first * page_size + k * page_size) ≡ (first + k) * page_size = omega arith in
    let next_offset : k * page_size + page_size ≡ (k + 1) * page_size = omega arith in
    let place : first + (k + 1) ≡ first + k + 1 = omega arith in
    let (kept, same) =
      unmap_kept pgd ((first + k) * page_size) s _ tree
        (unmap_page_lem pgd ((first + k) * page_size) s tree) in
    Undone-step (first + k) n pgd s _ tree (omega arith) (
      subst₂
        (λ off a.
          Undone (first + k + 1) n pgd (unmap_page pgd ((first + k) * page_size) s).1
            (undo_from n off pgd (first * page_size) (unmap_page pgd a s).1))
        (sym next_offset) (sym address)
        (subst
          (λ f. Undone f n pgd (unmap_page pgd ((first + k) * page_size) s).1 (
            undo_from n ((k + 1) * page_size) pgd (first * page_size)
              (unmap_page pgd ((first + k) * page_size) s).1))
          place
          (undo_from-Undone n first (k + 1) pgd (unmap_page pgd ((first + k) * page_size) s).1 kept
            (omega arith))))
