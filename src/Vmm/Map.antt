-- ===== src/Vmm/Map.antt =====
-- `vmm_map_page` of kernel/mm/vmm.c on the map from addresses to leaf entries that a tree stands for.
use kolibriarm.Base.{
  ℕ, suc, ◌-◌, ◌%◌, ◌<◌, ◌≡◌, ◌≢◌, ◌⊎◌, refl, sym, ap, ◌∙◌, subst, true, false, Option, none, some,
  ◌==◌, arith, if◌then◌else◌, Bool-cases, inl, inr, Status, ok, failed, bit_and, ==→eq,
}
use kolibriarm.Bits.{bit_and-ones}
use kolibriarm.Pmm.{page_size}
use kolibriarm.Vmm.{
  Vm, entry_of, has, desc_valid, table_index, page_descriptor, leaf_entry, map_page, map_leaf,
  descend, read_leaf,
}
use kolibriarm.Vmm.Walk.{reach, same_page}
use kolibriarm.Vmm.Tree.{Tree, leaf_entry-Tree, root_pos}
use kolibriarm.Vmm.Next.{table, full, Kept, Kept-trans, Kept-refl, AllUsed, next_table_lem}
use kolibriarm.Vmm.Leaf.{written, written-Tree, leaf_entry-written}

-- The page has its descriptor and no other page has changed, or no page has.
pub data MapOutcome (pgd vaddr paddr flags : ℕ) (s : Vm) (r : Status × Vm) : Type 0 where
  mapped :
      vaddr % page_size ≡ 0
      → paddr % page_size ≡ 0
      → has (leaf_entry pgd vaddr s.memory) desc_valid ≡ false
      → r.0 ≡ ok
      → ((w : ℕ)
          → leaf_entry pgd w r.1.memory ≡ (
              if same_page vaddr w then page_descriptor paddr flags else leaf_entry pgd w s.memory))
      → Tree pgd r.1
      → MapOutcome pgd vaddr paddr flags s r
  refused :
      r.0 ≡ failed
      → Kept pgd s r.1
      → (vaddr % page_size ≢ 0)
        ⊎ ((paddr % page_size ≢ 0)
            ⊎ ((has (leaf_entry pgd vaddr s.memory) desc_valid ≡ true) ⊎ AllUsed r.1.pmm))
      → MapOutcome pgd vaddr paddr flags s r

-- A walk through some levels, with new tables where there were none.
pub data WalkOutcome (pgd L v : ℕ) (s : Vm) (r : Option ℕ × Vm) : Type 0 where
  reached :
      (t : ℕ)
      → r.0 ≡ some t
      → reach L v pgd r.1.memory ≡ some t
      → Kept pgd s r.1
      → WalkOutcome pgd L v s r
  short : r.0 ≡ none → Kept pgd s r.1 → AllUsed r.1.pmm → WalkOutcome pgd L v s r

descend_lem :
    (pgd L v : ℕ) (s : Vm) (r : Option ℕ × Vm)
    → L < 3
    → WalkOutcome pgd L v s r
    → WalkOutcome pgd (suc L) v s (descend v L r)
descend_lem pgd L v s (none, u) h (reached t e here k) = absurd (ground arith)
descend_lem pgd L v s (none, u) h (short e k used) = short refl k used
descend_lem pgd L v s (some x, u) h (short e k used) = absurd (ground arith)
descend_lem pgd L v s (some x, u) h (reached t e here k) =
    let same : x ≡ t = ground arith in
    let at = subst (λ y. reach L v pgd u.memory ≡ some y) (sym same) here in
    elim (next_table_lem pgd u k.tree L v x h at) [
      | table c f there l ↦ reached c f there (Kept-trans pgd s u _ k l)
      | full f l used ↦ short f (Kept-trans pgd s u _ k l) used
    ]

walked :
    (pgd v : ℕ) (s : Vm)
    → Tree pgd s
    → WalkOutcome pgd 3 v s (descend v 2 (descend v 1 (descend v 0 (some pgd, s))))
unfolding reach
walked pgd v s tree = descend_lem pgd 2 v s _ (omega arith) (
    descend_lem pgd 1 v s _ (omega arith)
      (descend_lem pgd 0 v s _ (omega arith) (reached pgd refl refl (Kept-refl pgd s tree))))

map_leaf_lem :
    (pgd vaddr paddr flags : ℕ) (s : Vm) (r : Option ℕ × Vm)
    → pgd ≢ 0
    → vaddr % page_size ≡ 0
    → paddr % page_size ≡ 0
    → WalkOutcome pgd 3 vaddr s r
    → MapOutcome pgd vaddr paddr flags s (map_leaf vaddr paddr flags r)
unfolding written
map_leaf_lem pgd vaddr paddr flags s (none, u) nz a b (reached t e here k) = absurd (ground arith)
map_leaf_lem pgd vaddr paddr flags s (none, u) nz a b (short e k used) =
    refused refl k (inr (inr (inr used)))
map_leaf_lem pgd vaddr paddr flags s (some x, u) nz a b (short e k used) = absurd (ground arith)
map_leaf_lem pgd vaddr paddr flags s (some x, u) nz a b (reached t e here k) =
    let same : x ≡ t = ground arith in
    let at = subst (λ y. reach 3 vaddr pgd u.memory ≡ some y) (sym same) here in
    let leaf : leaf_entry pgd vaddr s.memory ≡ u.memory (entry_of x (table_index vaddr 3)) =
      sym (k.leaves vaddr)
      ∙ leaf_entry-Tree pgd vaddr u k.tree
      ∙ ap (read_leaf vaddr u.memory) at in
    elim (Bool-cases (has (u.memory (entry_of x (table_index vaddr 3))) desc_valid)) [
      | inl busy ↦
          rw busy (refused refl k (inr (inr (inl (ap (λ y. has y desc_valid) leaf ∙ busy)))))
      | inr vacant ↦ rw vacant (
          mapped a b (ap (λ y. has y desc_valid) leaf ∙ vacant) refl
            (λ w.
              leaf_entry-written pgd u k.tree vaddr x (page_descriptor paddr flags) at w
              ∙ ap (λ y. if same_page vaddr w then page_descriptor paddr flags else y) (k.leaves w))
            (written-Tree pgd u k.tree vaddr x (page_descriptor paddr flags) at))
    ]

pub aligned_lem : (a : ℕ) → (bit_and a (page_size - 1) == 0) ≡ (a % page_size == 0)
aligned_lem a = ap (λ k. k == 0) (bit_and-ones 12 a)

-- On a tree of tables whose pages the allocator manages, `vmm_map_page` gives the page of an aligned
-- address that has no valid entry the descriptor of the frame and the flags, and changes the entry of
-- no other page; otherwise it fails, no page's entry changes, and then an address is not aligned, the
-- page has a valid entry, or no page of the allocator is free. Either way the tree stays valid.
pub map_page_lem :
    (pgd vaddr paddr flags : ℕ) (s : Vm)
    → Tree pgd s
    → MapOutcome pgd vaddr paddr flags s (map_page pgd vaddr paddr flags s)
unfolding map_page
map_page_lem pgd vaddr paddr flags s tree =
    let root : pgd == 0 ≡ false = ground (arith, root_pos pgd s tree) in
    rw (root, aligned_lem vaddr, aligned_lem paddr)
      (elim (Bool-cases (vaddr % page_size == 0)) [
        | inr odd ↦ rw odd (refused refl (Kept-refl pgd s tree) (inl (ground arith)))
        | inl even ↦ rw even (elim (Bool-cases (paddr % page_size == 0)) [
          | inr odd ↦ rw odd (refused refl (Kept-refl pgd s tree) (inr (inl (ground arith))))
          | inl both ↦ rw both (
              map_leaf_lem pgd vaddr paddr flags s _ (root_pos pgd s tree)
                (==→eq (vaddr % page_size) 0 even) (==→eq (paddr % page_size) 0 both)
                (walked pgd vaddr s tree))
        ])
      ])
