-- ===== src/Vmm/Tree.antt =====
-- The invariant of a tree of tables of kernel/mm/vmm.c.
use kolibriarm.Base.{
  ℕ, ◌+◌, ◌*◌, ◌^◌, ◌<◌, ◌≤◌, ◌≡◌, ◌≢◌, refl, sym, ap, ◌∙◌, true, Option, none, some, ◌==◌, arith,
  if◌then◌else◌, Bool-cases, ==→eq, inl, inr, ◌&&◌,
}
use kolibriarm.Pmm.{Pmm, page_size}
use kolibriarm.Pmm.Pages.{taken}
use kolibriarm.Pmm.Inv as PmmInv
use kolibriarm.Vmm.{
  Memory, Vm, store, entry_of, has, desc_valid, desc_table, table_index, leaf_entry, read_leaf,
}
use kolibriarm.Vmm.Walk.{
  reach, IsReal, agree, leaf_table-reach, same_page, agree-same_page, reach-agree,
}

-- The address of a managed page that is in use.
abbrev pub Owned : Pmm → ℕ → Type 0
Owned pmm t =
    (p : ℕ) × (p < pmm.total_pages) × (t ≡ pmm.mem_base + p * page_size) × (taken pmm.bitmap p ≡ 1)

pub record Tree (pgd : ℕ) (s : Vm) : Type 0 where
  pub pages : PmmInv.IsValid s.pmm
  pub low : s.pmm.mem_base + s.pmm.total_pages * page_size ≤ 2 ^ 48
  pub above : 0 < s.pmm.mem_base
  pub owned : (l v t : ℕ) → l ≤ 3 → reach l v pgd s.memory ≡ some t → Owned s.pmm t
  pub apart :
      (l v k w t : ℕ)
      → l ≤ 3
      → k ≤ 3
      → reach l v pgd s.memory ≡ some t
      → reach k w pgd s.memory ≡ some t
      → (l ≡ k) × (agree l v w ≡ true)
  pub tables :
      (l v t : ℕ)
      → l < 3
      → reach l v pgd s.memory ≡ some t
      → has (s.memory (entry_of t (table_index v l))) desc_valid ≡ true
      → has (s.memory (entry_of t (table_index v l))) desc_table ≡ true

pub root-Owned : {pgd : ℕ} {s : Vm} → Tree pgd s → Owned s.pmm pgd
unfolding reach
root-Owned {pgd} tree = tree.owned 0 0 pgd (omega arith) refl

pub root_pos : (pgd : ℕ) (s : Vm) → Tree pgd s → pgd ≢ 0
root_pos pgd s tree e = (let (p, h, at, used) = root-Owned tree in omega (arith, tree.above))

pub Tree-IsReal : (pgd v : ℕ) (s : Vm) → Tree pgd s → IsReal v pgd s.memory
Tree-IsReal pgd v s tree t h e =
    let (p, q, at, used) = tree.owned 3 v t (omega arith) h in omega (arith, tree.above)

-- A word of a table determines the table and the index.
pub entry_apart :
    {pmm : Pmm} (t u i j : ℕ)
    → PmmInv.IsValid pmm
    → Owned pmm t
    → ((p : ℕ) × (u ≡ pmm.mem_base + p * page_size))
    → i < 512
    → j < 512
    → entry_of u j ≡ entry_of t i
    → (u ≡ t) × (j ≡ i)
entry_apart {pmm} t u i j v (p, h, at, used) (q, e) hi hj same =
    let eq : q ≡ p = omega arith in (omega arith, omega arith)

-- A store into a table, read in a page.
pub store_read :
    {pmm : Pmm} (m : Memory) (t u i j d q : ℕ)
    → PmmInv.IsValid pmm
    → Owned pmm t
    → u ≡ pmm.mem_base + q * page_size
    → i < 512
    → j < 512
    → store m (entry_of t i) d (entry_of u j) ≡ (if u == t && j == i then d else m (entry_of u j))
store_read {pmm} m t u i j d q v o e hi hj = elim (Bool-cases (entry_of u j == entry_of t i)) [
  | inl same ↦
      let (eu, ej) =
        entry_apart t u i j v o (q, e) hi hj (==→eq (entry_of u j) (entry_of t i) same) in
      ground arith
  | inr ne ↦ ground arith
]

pub leaf_entry-reach :
    (pgd v : ℕ) (m : Memory)
    → pgd ≢ 0
    → IsReal v pgd m
    → leaf_entry pgd v m ≡ read_leaf v m (reach 3 v pgd m)
unfolding leaf_entry
leaf_entry-reach pgd v m h real = ap (read_leaf v m) (leaf_table-reach pgd v m h real)

pub leaf_entry-Tree :
    (pgd v : ℕ) (s : Vm)
    → Tree pgd s
    → leaf_entry pgd v s.memory ≡ read_leaf v s.memory (reach 3 v pgd s.memory)
leaf_entry-Tree pgd v s tree =
    leaf_entry-reach pgd v s.memory (root_pos pgd s tree) (Tree-IsReal pgd v s tree)

-- The addresses of a page have one entry.
pub leaf_entry-same_page :
    (pgd v w : ℕ) (s : Vm)
    → Tree pgd s
    → same_page v w ≡ true
    → leaf_entry pgd v s.memory ≡ leaf_entry pgd w s.memory
leaf_entry-same_page pgd v w s tree e =
    let all : agree 4 v w ≡ true = agree-same_page v w ∙ e in
    leaf_entry-Tree pgd v s tree
    ∙ ap (read_leaf v s.memory) (reach-agree 3 v w pgd s.memory (ground arith))
    ∙ last (reach 3 w pgd s.memory) (ground arith)
    ∙ sym (leaf_entry-Tree pgd w s tree)
  where
    last :
        (o : Option ℕ)
        → table_index v 3 ≡ table_index w 3
        → read_leaf v s.memory o ≡ read_leaf w s.memory o
    last none e = refl
    last (some t) e = ap (λ i. s.memory (entry_of t i)) e
