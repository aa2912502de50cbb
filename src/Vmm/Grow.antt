-- ===== src/Vmm/Grow.antt =====
-- A new table of kernel/mm/vmm.c below a table of the tree: the walks through the new entry lead to
-- it and stop there, all others are as they were.
use mathlib.Core.Bool.{false≢true}
use native.Mathlib.Decide.{ℕ_discrete}
use kolibriarm.Base.{
  ℕ, zero, suc, ◌+◌, ◌*◌, ◌<◌, ◌≤◌, ◌≡◌, ◌≢◌, refl, sym, ap, ◌∙◌, subst, Bool, true, false, ◌&&◌,
  Option, none, some, ◌==◌, ltb, arith, if◌then◌else◌, Bool-cases, ==-refl, ==→eq, inl, inr,
}
use kolibriarm.Pmm.{Pmm, page_size}
use kolibriarm.Pmm.Pages.{taken}
use kolibriarm.Pmm.Ranges.{Marks}
use kolibriarm.Vmm.{
  Memory, Vm, store, entry_of, zero_table, has, address_in, desc_valid, desc_table, table_index,
  read_leaf, leaf_entry,
}
use kolibriarm.Vmm.Memory.{zero_table_in, zero_table_out}
use kolibriarm.Vmm.Entry.{Points, table_index_lt, has_zero}
use kolibriarm.Vmm.Walk.{
  reach, IsReal, child, bind_child, agree, reach-agree, reach_stopped, agree_sym, agree_trans,
  agree_refl,
}
use kolibriarm.Vmm.Tree.{
  Tree, Owned, store_read, leaf_entry-reach, leaf_entry-Tree, Tree-IsReal, root_pos,
}

module _ (pgd : ℕ) (s : Vm) (tree : Tree pgd s) (L v0 t c p : ℕ) (low : L < 3)
    (here : reach L v0 pgd s.memory ≡ some t)
    (vacant : has (s.memory (entry_of t (table_index v0 L))) desc_valid ≡ false)
    (in_range : p < s.pmm.total_pages) (at : c ≡ s.pmm.mem_base + p * page_size)
    (free : taken s.pmm.bitmap p ≡ 0) (desc : ℕ) (points : Points c desc) where
  unfoldable pub grown : Memory
  grown = store (zero_table c s.memory) (entry_of t (table_index v0 L)) desc

  Owned-apart : (u : ℕ) → Owned s.pmm u → u ≢ c
  Owned-apart u (q, h, e, used) same =
      let eq : q ≡ p = omega arith in absurd (omega (arith, ap (taken s.pmm.bitmap) eq))

  t-Owned : Owned s.pmm t
  t-Owned = tree.owned L v0 t (omega arith) here

  -- A word of an old table, and one of the new table.
  grown_old :
      (u j : ℕ)
      → Owned s.pmm u
      → j < 512
      → grown (entry_of u j)
        ≡ (if u == t && j == table_index v0 L then desc else s.memory (entry_of u j))
  unfolding grown
  grown_old u j (q, h, e, used) k =
      store_read (zero_table c s.memory) t u (table_index v0 L) j desc q tree.pages t-Owned e
        (table_index_lt v0 L) k
      ∙ ap (λ x. if u == t && j == table_index v0 L then desc else x)
          (zero_table_out c (entry_of u j) s.memory
            (λ i hi same. Owned-apart u (q, h, e, used) (page_apart i hi same)))
    where
      page_apart : (i : ℕ) → i < 512 → entry_of u j ≡ entry_of c i → u ≡ c
      page_apart i hi same = (let eq : q ≡ p = omega arith in omega arith)

  grown_new : (j : ℕ) → j < 512 → grown (entry_of c j) ≡ 0
  unfolding grown
  grown_new j h =
      store_read (zero_table c s.memory) t c (table_index v0 L) j desc p tree.pages t-Owned at
        (table_index_lt v0 L) h
      ∙ ground (arith, Owned-apart t t-Owned, zero_table_in c j s.memory h)

  -- Whether the walk for w takes the new entry.
  through : ℕ → Bool
  through w = agree (suc L) v0 w

  prefix : (w : ℕ) → through w ≡ true → agree L v0 w ≡ true
  unfolding through
  prefix w on = ground arith

  missed :
      (w u : ℕ)
      → reach L w pgd s.memory ≡ some u
      → through w ≡ false
      → (u == t && table_index w L == table_index v0 L) ≡ false
  unfolding through
  missed w u r off = elim (Bool-cases (u == t && table_index w L == table_index v0 L)) [
    | inr e ↦ e
    | inl e ↦
        let same : u ≡ t = ground arith in
        let (eq, before) =
          tree.apart L v0 L w t (omega arith) (omega arith) here
            (subst (λ x. reach L w pgd s.memory ≡ some x) same r) in
        absurd (ground arith)
  ]

  hit :
      (w u : ℕ)
      → reach L w pgd s.memory ≡ some u
      → through w ≡ true
      → (u ≡ t) × (table_index w L ≡ table_index v0 L)
  unfolding through
  hit w u r on =
      let same : reach L v0 pgd s.memory ≡ reach L w pgd s.memory =
        reach-agree L v0 w pgd s.memory (ground arith) in
      (ground (arith, here, same), ground arith)

  -- The walks after the new table.
  expected : ℕ → ℕ → Option ℕ
  expected l w =
      if ltb L l && through w then (if l == suc L then some c else none) else reach l w pgd s.memory

  -- One step of a walk.
  step_old :
      (l w u : ℕ)
      → l < 3
      → reach l w pgd s.memory ≡ some u
      → (u == t && table_index w l == table_index v0 L) ≡ false
      → child grown w l u ≡ child s.memory w l u
  step_old l w u h r off =
      ap (λ e. if has e desc_valid && has e desc_table then some (address_in e) else none)
        (grown_old u (table_index w l) (tree.owned l w u (omega arith) r) (table_index_lt w l)
          ∙ rw off refl)

  step_hit : (w : ℕ) → table_index w L ≡ table_index v0 L → child grown w L t ≡ some c
  step_hit w e =
      let entry : grown (entry_of t (table_index w L)) ≡ desc =
        grown_old t (table_index w L) t-Owned (table_index_lt w L) ∙ ground arith in
      ap (λ x. if has x desc_valid && has x desc_table then some (address_in x) else none) entry
      ∙ rw (points.valid, points.table) (ap some points.target)

  step_new : (w l : ℕ) → child grown w l c ≡ none
  step_new w l =
      ap (λ x. if has x desc_valid && has x desc_table then some (address_in x) else none)
        (grown_new (table_index w l) (table_index_lt w l))
      ∙ rw has_zero refl

  -- At the level of the table that has grown.
  step_level :
      (w : ℕ) (o : Option ℕ)
      → reach L w pgd s.memory ≡ o
      → bind_child grown w L o ≡ (if through w then some c else bind_child s.memory w L o)
  step_level w none r = elim (Bool-cases (through w)) [
    | inr off ↦ rw off refl
    | inl on ↦
        (let same : reach L v0 pgd s.memory ≡ reach L w pgd s.memory =
            reach-agree L v0 w pgd s.memory (prefix w on) in
          absurd (ground (arith, here)))
  ]
  step_level w (some u) r = elim (Bool-cases (through w)) [
    | inr off ↦ rw off (step_old L w u low r (missed w u r off))
    | inl on ↦ rw on (
        let (eu, ei) = hit w u r on in
        subst (λ x. child grown w L x ≡ some c) (sym eu) (step_hit w ei))
  ]

  -- At another level.
  step_other :
      (l w : ℕ) (o : Option ℕ)
      → l < 3
      → l ≢ L
      → reach l w pgd s.memory ≡ o
      → bind_child grown w l o ≡ bind_child s.memory w l o
  step_other l w none h ne r = refl
  step_other l w (some u) h ne r =
      step_old l w u h r (apart_test (u == t && table_index w l == table_index v0 L) refl)
    where
      apart_test : (b : Bool) → (u == t && table_index w l == table_index v0 L) ≡ b → b ≡ false
      apart_test false e = refl
      apart_test true e =
          let same : u ≡ t = ground arith in
          absurd (
            ne
              (tree.apart l w L v0 t (omega arith) (omega arith)
                (subst (λ x. reach l w pgd s.memory ≡ some x) same r) here).0)

  level : (w : ℕ) → bind_child grown w L (expected L w) ≡ expected (suc L) w
  unfolding expected reach
  level w =
      let below : ltb L L ≡ false = ground arith in
      let over : ltb L (suc L) ≡ true = ground arith in
      rw (below, over, ==-refl (suc L)) (step_level w (reach L w pgd s.memory) refl)

  other : (l w : ℕ) → l < 3 → l ≢ L → bind_child grown w l (expected l w) ≡ expected (suc l) w
  unfolding expected reach
  other l w h ne = elim (Bool-cases (ltb L l)) [
    | inr below ↦
        let too : ltb L (suc l) ≡ false = ground arith in
        rw (below, too) (step_other l w (reach l w pgd s.memory) h ne refl)
    | inl over ↦
        let too : ltb L (suc l) ≡ true = ground arith in
        rw (over, too)
          (elim (Bool-cases (through w)) [
            | inr off ↦ rw off (step_other l w (reach l w pgd s.memory) h ne refl)
            | inl on ↦
                let past : suc l == suc L ≡ false = ground arith in
                rw (on, past)
                  (elim (Bool-cases (l == suc L)) [
                    | inl child_level ↦ rw child_level (step_new w l)
                    | inr beyond ↦ rw beyond refl
                  ])
          ])
  ]

  reach-grown : (l w : ℕ) → l ≤ 3 → reach l w pgd grown ≡ expected l w
  unfolding reach expected
  reach-grown zero w h = (let start : ltb L 0 ≡ false = ground arith in rw start refl)
  reach-grown (suc l) w h =
      ap (bind_child grown w l) (reach-grown l w (omega arith)) ∙ elim (ℕ_discrete l L) [
        | yes same ↦
            subst (λ k. bind_child grown w k (expected k w) ≡ expected (suc k) w) (sym same)
              (level w)
        | no ne ↦ other l w (omega arith) ne
      ]

  pub reach_fresh : reach (suc L) v0 pgd grown ≡ some c
  unfolding expected through
  reach_fresh =
      let over : ltb L (suc L) ≡ true = ground arith in
      reach-grown (suc L) v0 (omega arith) ∙ rw (over, agree_refl (suc L) v0, ==-refl (suc L)) refl

  -- A walk after the growth is an old one, or leads to the new table.
  data Found (l w u : ℕ) : Type 0 where
    old : reach l w pgd s.memory ≡ some u → Found l w u
    fresh : l ≡ suc L → through w ≡ true → u ≡ c → Found l w u

  found : (l w u : ℕ) → l ≤ 3 → reach l w pgd grown ≡ some u → Found l w u
  unfolding expected
  found l w u h r = elim (Bool-cases (ltb L l && through w)) [
    | inr off ↦ old (
        let e : expected l w ≡ reach l w pgd s.memory = rw off refl in
        sym e ∙ sym (reach-grown l w h) ∙ r)
    | inl on ↦ elim (Bool-cases (l == suc L)) [
      | inl here_level ↦
          let e : expected l w ≡ some c = rw (on, here_level) refl in
          let eu : some c ≡ some u = sym e ∙ sym (reach-grown l w h) ∙ r in
          fresh (==→eq l (suc L) here_level) (ground arith) (ground arith)
      | inr beyond ↦
          let e : expected l w ≡ none = rw (on, beyond) refl in
          let eu : none ≡ some u = sym e ∙ sym (reach-grown l w h) ∙ r in absurd (ground arith)
    ]
  ]

  module _ (left : Pmm) (marks : Marks 1 p 1 s.pmm left) where
    still-Owned : (u : ℕ) → Owned s.pmm u → Owned left u
    still-Owned u (q, h, e, used) =
        (q, omega (arith, marks.total), omega (arith, marks.base), marks.bits q ∙ ground arith)

    c-Owned : Owned left c
    c-Owned =
        (p, omega (arith, marks.total), omega (arith, marks.base), marks.bits p ∙ ground arith)

    grown-Owned : (l v u : ℕ) → l ≤ 3 → reach l v pgd grown ≡ some u → Owned left u
    grown-Owned l v u h r = elim (found l v u h r) [
      | old e ↦ still-Owned u (tree.owned l v u h e)
      | fresh e on same ↦ subst (Owned left) (sym same) c-Owned
    ]

    grown_apart :
        (l v k w u : ℕ)
        → l ≤ 3
        → k ≤ 3
        → reach l v pgd grown ≡ some u
        → reach k w pgd grown ≡ some u
        → (l ≡ k) × (agree l v w ≡ true)
    unfolding through
    grown_apart l v k w u h i r q = elim (found l v u h r) [
      | old e ↦ elim (found k w u i q) [
        | old f ↦ tree.apart l v k w u h i e f
        | fresh f on same ↦ absurd (Owned-apart u (tree.owned l v u h e) same)
      ]
      | fresh e on same ↦ elim (found k w u i q) [
        | old f ↦ absurd (Owned-apart u (tree.owned k w u i f) same)
        | fresh f too also ↦ (
          e ∙ sym f,
          subst (λ x. agree x v w ≡ true) (sym e)
              (agree_trans (suc L) v v0 w (agree_sym (suc L) v0 v on) too),
        )
      ]
    ]

    grown_tables :
        (l v u : ℕ)
        → l < 3
        → reach l v pgd grown ≡ some u
        → has (grown (entry_of u (table_index v l))) desc_valid ≡ true
        → has (grown (entry_of u (table_index v l))) desc_table ≡ true
    grown_tables l v u h r on = elim (found l v u (omega arith) r) [
      | fresh e way same ↦
          let none_there : grown (entry_of u (table_index v l)) ≡ 0 =
            ap (λ x. grown (entry_of x (table_index v l))) same
            ∙ grown_new (table_index v l) (table_index_lt v l) in
          absurd (false≢true (sym has_zero ∙ ap (λ x. has x desc_valid) (sym none_there) ∙ on))
      | old e ↦
          let read =
            grown_old u (table_index v l) (tree.owned l v u (omega arith) e) (table_index_lt v l) in
          elim (Bool-cases (u == t && table_index v l == table_index v0 L)) [
            | inl new_entry ↦
                let is : grown (entry_of u (table_index v l)) ≡ desc = read ∙ rw new_entry refl in
                ap (λ x. has x desc_table) is ∙ points.table
            | inr old_entry ↦
                let is : grown (entry_of u (table_index v l))
                    ≡ s.memory (entry_of u (table_index v l)) =
                  read ∙ rw old_entry refl in
                ap (λ x. has x desc_table) is
                ∙ tree.tables l v u h e (ap (λ x. has x desc_valid) (sym is) ∙ on)
          ]
    ]

    pub grown-Tree : Tree pgd (record { pmm = left; memory = grown })
    grown-Tree = record {
      pages = marks.valid;
      low = omega (arith, tree.low, marks.base, marks.total);
      above = omega (arith, tree.above, marks.base);
      owned = grown-Owned;
      apart = grown_apart;
      tables = grown_tables;
    }

  grown-IsReal : (w : ℕ) → IsReal w pgd grown
  grown-IsReal w u r = elim (found 3 w u (omega arith) r) [
    | old e ↦ Tree-IsReal pgd w s tree u e
    | fresh e on same ↦ λ z. absurd (omega (arith, tree.above, at))
  ]

  reach_before : (w : ℕ) → through w ≡ true → reach 3 w pgd s.memory ≡ none
  unfolding through reach
  reach_before w on = reach_stopped (suc L) 3 w pgd s.memory (omega arith) (
      sym (reach-agree (suc L) v0 w pgd s.memory on)
      ∙ ap (bind_child s.memory v0 L) here
      ∙ rw vacant refl)

  -- No address has become mapped or unmapped.
  pub leaf_entry-grown : (w : ℕ) → leaf_entry pgd w grown ≡ leaf_entry pgd w s.memory
  unfolding expected
  leaf_entry-grown w =
      leaf_entry-reach pgd w grown (root_pos pgd s tree) (grown-IsReal w)
      ∙ leaves (reach 3 w pgd grown) refl
      ∙ sym (leaf_entry-Tree pgd w s tree)
    where
      not_through : through w ≡ false → expected 3 w ≡ reach 3 w pgd s.memory
      not_through off = (let yes_below : ltb L 3 ≡ true = ground arith in rw (yes_below, off) refl)

      elsewhere :
          (u : ℕ)
          → reach 3 w pgd s.memory ≡ some u
          → (b : Bool) → (u == t && table_index w 3 == table_index v0 L) ≡ b
          → (u == t && table_index w 3 == table_index v0 L) ≡ false
      elsewhere u e false f = f
      elsewhere u e true f =
          let same : u ≡ t = ground arith in
          let (level_three, prefix_same) =
            tree.apart 3 w L v0 t (omega arith) (omega arith)
              (subst (λ x. reach 3 w pgd s.memory ≡ some x) same e) here in
          absurd (omega arith)

      leaves :
          (o : Option ℕ)
          → reach 3 w pgd grown ≡ o
          → read_leaf w grown o ≡ read_leaf w s.memory (reach 3 w pgd s.memory)
      leaves none r = elim (Bool-cases (through w)) [
        | inl on ↦ ap (read_leaf w s.memory) (sym (reach_before w on))
        | inr off ↦
            ap (read_leaf w s.memory)
              (sym (sym (not_through off) ∙ sym (reach-grown 3 w (omega arith)) ∙ r))
      ]
      leaves (some u) r = elim (found 3 w u (omega arith) r) [
        | fresh e on same ↦
            ap (λ x. grown (entry_of x (table_index w 3))) same
            ∙ grown_new (table_index w 3) (table_index_lt w 3)
            ∙ ap (read_leaf w s.memory) (sym (reach_before w on))
        | old e ↦
            grown_old u (table_index w 3) (tree.owned 3 w u (omega arith) e) (table_index_lt w 3)
            ∙ rw (elsewhere u e (u == t && table_index w 3 == table_index v0 L) refl) refl
            ∙ ap (read_leaf w s.memory) (sym e)
      ]
