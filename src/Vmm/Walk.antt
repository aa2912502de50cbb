-- ===== src/Vmm/Walk.antt =====
-- The walk through the levels of kernel/mm/vmm.c: which table the indices of an address lead to.
use kolibriarm.Base.{
  ℕ, zero, suc, ◌/◌, ◌%◌, ◌^◌, ◌≤◌, ◌≡◌, ◌≢◌, refl, ap, ◌∙◌, Bool, true, false, ◌&&◌, Option, none,
  some, ◌==◌, ltb, arith, subst, if◌then◌else◌, Bool-cases, inl, inr,
}
use kolibriarm.Vmm.{
  Memory, entry_of, has, address_in, desc_valid, desc_table, table_index, leaf_from, leaf_table,
  non_null,
}
use kolibriarm.Vmm.Entry.{table_index_lem}

abbrev pub child : Memory → ℕ → ℕ → ℕ → Option ℕ
child m v level table =
    let entry = m (entry_of table (table_index v level)) in
    if has entry desc_valid && has entry desc_table then some (address_in entry) else none

abbrev pub bind_child : Memory → ℕ → ℕ → Option ℕ → Option ℕ
bind_child m v level none = none
bind_child m v level (some table) = child m v level table

-- The table at a level, `none` where the walk stops before it.
unfoldable pub reach : ℕ → ℕ → ℕ → Memory → Option ℕ
reach zero v pgd m = some pgd
reach (suc l) v pgd m = bind_child m v l (reach l v pgd m)

-- The table of the last level is no null pointer.
abbrev pub IsReal : ℕ → ℕ → Memory → Type 0
IsReal v pgd m = (t : ℕ) → reach 3 v pgd m ≡ some t → t ≢ 0

abbrev check : Option ℕ → Option ℕ
check none = none
check (some table) = non_null table

leaf_from-check : (v pgd : ℕ) (m : Memory) → leaf_from 3 0 v pgd m ≡ check (reach 3 v pgd m)
unfolding leaf_from reach
leaf_from-check v pgd m = elim (Bool-cases (has e0 desc_valid && has e0 desc_table)) [
  | inr stop ↦ rw stop refl
  | inl go ↦ rw go (elim (Bool-cases (has e1 desc_valid && has e1 desc_table)) [
    | inr stop ↦ rw stop refl
    | inl on ↦ rw on (elim (Bool-cases (has e2 desc_valid && has e2 desc_table)) [
      | inr stop ↦ rw stop refl
      | inl last ↦ rw last refl
    ])
  ])
]
  where
    e0 : ℕ
    e0 = m (entry_of pgd (table_index v 0))

    e1 : ℕ
    e1 = m (entry_of (address_in e0) (table_index v 1))

    e2 : ℕ
    e2 = m (entry_of (address_in e1) (table_index v 2))

check_real : (o : Option ℕ) → ((t : ℕ) → o ≡ some t → t ≢ 0) → check o ≡ o
check_real none h = refl
check_real (some t) h =
    (let real = h t refl in let test : t == 0 ≡ false = ground (arith, real) in rw test refl)

pub leaf_from-reach :
    (v pgd : ℕ) (m : Memory) → IsReal v pgd m → leaf_from 3 0 v pgd m ≡ reach 3 v pgd m
leaf_from-reach v pgd m h = leaf_from-check v pgd m ∙ check_real (reach 3 v pgd m) h

pub leaf_table-reach :
    (pgd v : ℕ) (m : Memory) → pgd ≢ 0 → IsReal v pgd m → leaf_table pgd v m ≡ reach 3 v pgd m
leaf_table-reach pgd v m h real = ground (arith, leaf_from-reach v pgd m real)

-- Two addresses have the same indices below a level.
abbrev pub agree : ℕ → ℕ → ℕ → Bool
agree zero v w = true
agree (suc l) v w = agree l v w && table_index v l == table_index w l

bind_child_same :
    (m : Memory) (v w l : ℕ) (o : Option ℕ)
    → table_index v l ≡ table_index w l
    → bind_child m v l o ≡ bind_child m w l o
bind_child_same m v w l none e = refl
bind_child_same m v w l (some t) e =
    ap
      (λ i.
        if has (m (entry_of t i)) desc_valid && has (m (entry_of t i)) desc_table
        then some (address_in (m (entry_of t i)))
        else none)
      e

pub reach-agree :
    (l v w pgd : ℕ) (m : Memory) → agree l v w ≡ true → reach l v pgd m ≡ reach l w pgd m
unfolding reach
reach-agree zero v w pgd m h = refl
reach-agree (suc l) v w pgd m h =
    let same : table_index v l ≡ table_index w l = ground arith in
    let before : reach l v pgd m ≡ reach l w pgd m = reach-agree l v w pgd m (ground arith) in
    ap (bind_child m v l) before ∙ bind_child_same m v w l (reach l w pgd m) same

pub agree_less : (l k v w : ℕ) → l ≤ k → agree k v w ≡ true → agree l v w ≡ true
agree_less zero k v w h e = refl
agree_less (suc l) zero v w h e = absurd (omega arith)
agree_less (suc l) (suc k) v w h e = elim (Bool-cases (ltb l k)) [
  | inl less ↦ agree_less (suc l) k v w (ground arith) (ground arith)
  | inr more ↦ (let same : l ≡ k = ground arith in rw same e)
]

pub agree_sym : (l v w : ℕ) → agree l v w ≡ true → agree l w v ≡ true
agree_sym zero v w h = refl
agree_sym (suc l) v w h = ground (arith, agree_sym l v w)

pub agree_trans : (l u v w : ℕ) → agree l u v ≡ true → agree l v w ≡ true → agree l u w ≡ true
agree_trans zero u v w h k = refl
agree_trans (suc l) u v w h k = ground (arith, agree_trans l u v w)

pub agree_refl : (l v : ℕ) → agree l v v ≡ true
agree_refl zero v = refl
agree_refl (suc l) v = ground (arith, agree_refl l v)

-- A walk that has stopped stays so.
pub reach_stopped :
    (l k v pgd : ℕ) (m : Memory) → l ≤ k → reach l v pgd m ≡ none → reach k v pgd m ≡ none
unfolding reach
reach_stopped l zero v pgd m h e =
    (let same : l ≡ 0 = omega arith in subst (λ i. reach i v pgd m ≡ none) same e)
reach_stopped l (suc k) v pgd m h e = elim (Bool-cases (ltb k l)) [
  | inl more ↦ (let same : l ≡ suc k = ground arith in subst (λ i. reach i v pgd m ≡ none) same e)
  | inr less ↦ rw (reach_stopped l k v pgd m (ground arith) e) refl
]

-- Two addresses of one page of the 2 ^ 48 bytes that the tables span.
abbrev pub same_page : ℕ → ℕ → Bool
same_page v w = v / 4096 % 2 ^ 36 == w / 4096 % 2 ^ 36

pub agree-same_page : (v w : ℕ) → agree 4 v w ≡ same_page v w
agree-same_page v w = ground (
  arith,
  table_index_lem v 0,
  table_index_lem v 1,
  table_index_lem v 2,
  table_index_lem v 3,
  table_index_lem w 0,
  table_index_lem w 1,
  table_index_lem w 2,
  table_index_lem w 3,
)
