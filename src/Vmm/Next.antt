-- ===== src/Vmm/Next.antt =====
-- `next_table` of kernel/mm/vmm.c: the walk goes one level down, to a table that is there or to a new
-- one.
use kolibriarm.Base.{
  ℕ, suc, ◌<◌, ◌≡◌, refl, sym, ap, ◌∙◌, subst, false, Option, none, some, ◌==◌, arith, Bool-cases,
  inl, inr,
}
use kolibriarm.Pmm.{Pmm, alloc_page}
use kolibriarm.Pmm.Pages.{taken}
use kolibriarm.Pmm.Alloc.{PageOutcome, page, exhausted, alloc_page_lem}
use kolibriarm.Vmm.{
  Vm, entry_of, has, address_in, desc_valid, table_index, table_descriptor, leaf_entry, next_table,
  new_table, zeroed, link,
}
use kolibriarm.Vmm.Entry.{Points, table_descriptor-Points, address_in_lem}
use kolibriarm.Vmm.Walk.{reach, bind_child}
use kolibriarm.Vmm.Tree.{Tree}
use kolibriarm.Vmm.Grow.{grown, reach_fresh, grown-Tree, leaf_entry-grown}

abbrev pub AllUsed : Pmm → Type 0
AllUsed pmm = (q : ℕ) → q < pmm.total_pages → taken pmm.bitmap q ≡ 1

-- The tree may have more tables, but maps the same pages.
pub record Kept (pgd : ℕ) (s u : Vm) : Type 0 where
  pub tree : Tree pgd u
  pub leaves : (w : ℕ) → leaf_entry pgd w u.memory ≡ leaf_entry pgd w s.memory

pub data NextOutcome (pgd L v : ℕ) (s : Vm) (r : Option ℕ × Vm) : Type 0 where
  table :
      (c : ℕ)
      → r.0 ≡ some c
      → reach (suc L) v pgd r.1.memory ≡ some c
      → Kept pgd s r.1
      → NextOutcome pgd L v s r
  full : r.0 ≡ none → Kept pgd s r.1 → AllUsed r.1.pmm → NextOutcome pgd L v s r

pub Kept-refl : (pgd : ℕ) (s : Vm) → Tree pgd s → Kept pgd s s
Kept-refl pgd s tree = record { tree = tree; leaves = λ w. refl }

pub Kept-trans : (pgd : ℕ) (s t u : Vm) → Kept pgd s t → Kept pgd t u → Kept pgd s u
Kept-trans pgd s t u k l = record { tree = l.tree; leaves = λ w. l.leaves w ∙ k.leaves w }

module _ (pgd : ℕ) (s : Vm) (tree : Tree pgd s) (L v t : ℕ) (low : L < 3)
    (here : reach L v pgd s.memory ≡ some t) where
  linked :
      has (s.memory (entry_of t (table_index v L))) desc_valid ≡ false
      → (r : ℕ × Pmm) → PageOutcome s.pmm r
      → NextOutcome pgd L v s (link (entry_of t (table_index v L)) (zeroed s.memory r))
  unfolding grown
  linked vacant r (exhausted same used) =
      subst (λ x. NextOutcome pgd L v s (link (entry_of t (table_index v L)) (zeroed s.memory x)))
        (sym same) (full refl (Kept-refl pgd s tree) used)
  linked vacant (c, left) (page p h free lowest at marks count) =
      let some_page : c == 0 ≡ false = ground (arith, tree.above) in
      let field : address_in c ≡ c =
        omega (arith, address_in_lem c, tree.low, tree.pages.aligned) in
      let points = subst (λ x. Points x (table_descriptor c)) field (table_descriptor-Points c) in
      rw some_page (
        table c refl
          (reach_fresh pgd s tree L v t c p low here vacant h at free (table_descriptor c) points)
          record {
            tree =
                grown-Tree pgd s tree L v t c p low here vacant h at free (table_descriptor c)
                  points left marks;
            leaves =
                leaf_entry-grown pgd s tree L v t c p low here vacant h at free (table_descriptor c)
                  points;
          })

  pub next_table_lem : NextOutcome pgd L v s (next_table t (table_index v L) s)
  unfolding next_table reach new_table
  next_table_lem = elim (Bool-cases (has (s.memory (entry_of t (table_index v L))) desc_valid)) [
    | inr vacant ↦ rw vacant (linked vacant (alloc_page s.pmm) (alloc_page_lem s.pmm tree.pages))
    | inl valid ↦
        let below = tree.tables L v t low here valid in
        let there : reach (suc L) v pgd s.memory
            ≡ some (address_in (s.memory (entry_of t (table_index v L)))) =
          ap (bind_child s.memory v L) here ∙ rw (valid, below) refl in
        let (p, h, at, used) = tree.owned (suc L) v _ (omega arith) there in
        let real : address_in (s.memory (entry_of t (table_index v L))) == 0 ≡ false =
          ground (arith, tree.above, at) in
        rw (valid, below, real)
          (table (address_in (s.memory (entry_of t (table_index v L)))) refl there
            (Kept-refl pgd s tree))
  ]
