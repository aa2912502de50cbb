-- ===== src/Vmm/Leaf.antt =====
-- A store into a leaf table of kernel/mm/vmm.c changes the entry of one page and no walk.
use kolibriarm.Base.{
  ℕ, zero, suc, ◌<◌, ◌≤◌, ◌≡◌, refl, sym, ap, ◌∙◌, subst, Bool, true, false, ◌&&◌, Option, none,
  some, ◌==◌, arith, if◌then◌else◌, Bool-cases, inl, inr,
}
use kolibriarm.Vmm.{
  Memory, Vm, store, entry_of, has, address_in, desc_valid, desc_table, table_index, leaf_entry,
  read_leaf,
}
use kolibriarm.Vmm.Entry.{table_index_lt}
use kolibriarm.Vmm.Walk.{reach, bind_child, reach-agree, same_page, agree-same_page}
use kolibriarm.Vmm.Tree.{Tree, Owned, store_read, leaf_entry-Tree}

module _ (pgd : ℕ) (s : Vm) (tree : Tree pgd s) (v t d : ℕ)
    (here : reach 3 v pgd s.memory ≡ some t) where
  unfoldable pub written : Memory
  written = store s.memory (entry_of t (table_index v 3)) d

  written_read :
      (u j : ℕ)
      → Owned s.pmm u
      → j < 512
      → written (entry_of u j)
        ≡ (if u == t && j == table_index v 3 then d else s.memory (entry_of u j))
  unfolding written
  written_read u j (q, h, e, used) k =
      store_read s.memory t u (table_index v 3) j d q tree.pages
        (tree.owned 3 v t (omega arith) here) e (table_index_lt v 3) k

  -- No entry above the leaves has changed.
  upper :
      (l w u : ℕ)
      → l < 3
      → reach l w pgd s.memory ≡ some u
      → written (entry_of u (table_index w l)) ≡ s.memory (entry_of u (table_index w l))
  upper l w u h r =
      written_read u (table_index w l) (tree.owned l w u (omega arith) r) (table_index_lt w l)
      ∙ rw (apart (u == t && table_index w l == table_index v 3) refl) refl
    where
      apart :
          (b : Bool)
          → (u == t && table_index w l == table_index v 3) ≡ b
          → (u == t && table_index w l == table_index v 3) ≡ false
      apart false e = e
      apart true e =
          let same : u ≡ t = ground arith in
          let (level, prefix) =
            tree.apart l w 3 v t (omega arith) (omega arith)
              (subst (λ x. reach l w pgd s.memory ≡ some x) same r) here in
          absurd (omega arith)

  step :
      (l w : ℕ) (o : Option ℕ)
      → l < 3
      → reach l w pgd s.memory ≡ o
      → bind_child written w l o ≡ bind_child s.memory w l o
  step l w none h r = refl
  step l w (some u) h r =
      ap (λ e. if has e desc_valid && has e desc_table then some (address_in e) else none)
        (upper l w u h r)

  pub reach-written : (l w : ℕ) → l ≤ 3 → reach l w pgd written ≡ reach l w pgd s.memory
  unfolding reach
  reach-written zero w h = refl
  reach-written (suc l) w h =
      ap (bind_child written w l) (reach-written l w (omega arith))
      ∙ step l w (reach l w pgd s.memory) (omega arith) refl

  pub written-Tree : Tree pgd (record s { memory = written })
  written-Tree = record {
    pages = tree.pages;
    low = tree.low;
    above = tree.above;
    owned = λ l w u h r. tree.owned l w u h (sym (reach-written l w h) ∙ r);
    apart = λ l w k x u h i r q.
        tree.apart l w k x u h i (sym (reach-written l w h) ∙ r) (sym (reach-written k x i) ∙ q);
    tables = λ l w u h r on.
        let old = sym (reach-written l w (omega arith)) ∙ r in
        let same = upper l w u h old in
        ap (λ e. has e desc_table) same
        ∙ tree.tables l w u h old (sym (ap (λ e. has e desc_valid) same) ∙ on);
  }

  leaves :
      (w : ℕ) (o : Option ℕ)
      → reach 3 w pgd s.memory ≡ o
      → read_leaf w written o ≡ (if same_page v w then d else read_leaf w s.memory o)
  leaves w none r = elim (Bool-cases (same_page v w)) [
    | inr other ↦ rw other refl
    | inl same ↦
        let e : reach 3 v pgd s.memory ≡ reach 3 w pgd s.memory =
          reach-agree 3 v w pgd s.memory (ground (arith, agree-same_page v w)) in
        absurd (ground (arith, here))
  ]
  leaves w (some u) r =
      written_read u (table_index w 3) (tree.owned 3 w u (omega arith) r) (table_index_lt w 3)
      ∙ ap (λ b. if b then d else s.memory (entry_of u (table_index w 3)))
          (same_test (same_page v w) refl)
    where
      same_test :
          (b : Bool)
          → same_page v w ≡ b
          → (u == t && table_index w 3 == table_index v 3) ≡ same_page v w
      same_test true e =
          let eq : reach 3 v pgd s.memory ≡ reach 3 w pgd s.memory =
            reach-agree 3 v w pgd s.memory (ground (arith, agree-same_page v w)) in
          ground (arith, here, agree-same_page v w)
      same_test false e = elim (Bool-cases (u == t && table_index w 3 == table_index v 3)) [
        | inr other ↦ other ∙ sym e
        | inl same ↦
            let eq : u ≡ t = ground arith in
            let (level, prefix) =
              tree.apart 3 v 3 w t (omega arith) (omega arith) here
                (subst (λ x. reach 3 w pgd s.memory ≡ some x) eq r) in
            absurd (ground (arith, agree-same_page v w))
      ]

  pub leaf_entry-written :
      (w : ℕ) → leaf_entry pgd w written ≡ (if same_page v w then d else leaf_entry pgd w s.memory)
  leaf_entry-written w =
      leaf_entry-Tree pgd w (record s { memory = written }) written-Tree
      ∙ ap (read_leaf w written) (reach-written 3 w (omega arith))
      ∙ leaves w (reach 3 w pgd s.memory) refl
      ∙ ap (λ x. if same_page v w then d else x) (sym (leaf_entry-Tree pgd w s tree))
