-- ===== src/Process/Regions/Mapping.antt =====
-- `process_set_user_region_mapping` of kernel/process.c.
use native.Mathlib.Decide.{ℕ_discrete}
use kolibriarm.Base.{
  ℕ, ◌+◌, ◌<◌, ◌≡◌, ◌≢◌, refl, sym, ap, ◌∙◌, subst, ltb, arith, inl, inr, Bool-cases, Option-cases,
  Option, none, some, ◌||◌, ◌==◌, Status, ok, failed, get_or-set_self, get_or-set_ne, length-set,
  first_index-some, first_index-none,
}
use kolibriarm.Process.{Process, Region, cleared_region, user_mmap_limit}
use kolibriarm.Process.Regions.{
  set_user_region_mapping, user_region_end, find_region, is_exact, map_found, alloc_user_region,
  align_up, region_align, add_user_region, finish_alloc, alloc_at,
}
use kolibriarm.Process.Regions.Inv.{IsValid, region, Apart-any, user_region_end_fits}
use kolibriarm.Process.Regions.Undo.{add_user_region-SameEntry}

-- The i-th region has the frame and the flags, and nothing else has changed.
pub record Recorded (p : Process) (i paddr flags : ℕ) (r : Status × Process) : Type 0 where
  pub status : r.0 ≡ ok
  pub count : r.1.user_region_count ≡ p.user_region_count
  pub here :
      region r.1 i
      ≡ record { start = (region p i).start; end = (region p i).end; paddr = paddr; flags = flags }
  pub others : (j : ℕ) → j ≢ i → region r.1 j ≡ region p j
  pub next : r.1.next_user_vaddr ≡ p.next_user_vaddr
  pub valid : IsValid r.1

module _ (p : Process) (v : IsValid p) (i : ℕ) (h : i < p.user_region_count) (paddr flags : ℕ) where
  set_at : Process
  set_at = (map_found p paddr flags (some i)).1

  set_here :
      region set_at i
      ≡ record { start = (region p i).start; end = (region p i).end; paddr = paddr; flags = flags }
  unfolding set_at
  set_here = get_or-set_self p.user_regions i _ cleared_region (omega (arith, v))

  set_other : (j : ℕ) → j ≢ i → region set_at j ≡ region p j
  unfolding set_at
  set_other j ne = get_or-set_ne p.user_regions i j _ cleared_region (λ e. ne (sym e))

  set_bounds :
      (j : ℕ)
      → ((region set_at j).start ≡ (region p j).start) × ((region set_at j).end ≡ (region p j).end)
  set_bounds j = elim (ℕ_discrete j i) [
    | yes same ↦
        subst
          (λ k.
            ((region set_at k).start ≡ (region p k).start)
            × ((region set_at k).end ≡ (region p k).end))
          (sym same) (ap (λ (x : Region). x.start) set_here, ap (λ (x : Region). x.end) set_here)
    | no ne ↦
        (ap (λ (x : Region). x.start) (set_other j ne), ap (λ (x : Region). x.end) (set_other j ne))
  ]

  set_at-IsValid : IsValid set_at
  unfolding set_at
  set_at-IsValid = record {
    eight = length-set p.user_regions i _ ∙ v.eight;
    counted = v.counted;
    sized = λ j k. (let (a, b) = set_bounds j in omega (arith, v.sized j k, a, b));
    apart = λ j k l n.
        let (a, b) = set_bounds j in
        let (c, d) = set_bounds k in
        elim (v.apart j k l n) [ inl x ↦ inl (omega arith) | inr x ↦ inr (omega arith) ];
  }

-- On valid regions, the region that is exactly the range is the only one, and it is the one that is
-- set.
pub set_user_region_mapping_lem :
    (p : Process) (i start size paddr flags : ℕ)
    → IsValid p
    → i < p.user_region_count
    → (region p i).start ≡ start
    → (region p i).end ≡ start + size
    → Recorded p i paddr flags (set_user_region_mapping p start size paddr flags)
unfolding set_user_region_mapping set_at
set_user_region_mapping_lem p i start size paddr flags v h s e =
    let sized = v.sized i h in
    let fits : user_region_end start size ≡ some (start + size) =
      user_region_end_fits start size (omega arith) (omega arith) in
    rw fits (elim (Option-cases (find_region (is_exact start (start + size)) p)) [
      | inl nowhere ↦ absurd (
          ground (
            arith,
            first_index-none (is_exact start (start + size)) p.user_region_count p.user_regions
                cleared_region i nowhere h (omega (arith, v)),
          ))
      | inr (j, hit) ↦
          let (below, _, test) =
            first_index-some (is_exact start (start + size)) p.user_region_count p.user_regions
              cleared_region j hit in
          let same : j ≡ i = only j below (ground arith) (ground arith) in
          subst (λ o. Recorded p i paddr flags (map_found p paddr flags o))
            (sym (hit ∙ ap some same))
            (record {
              status = refl;
              count = refl;
              here = set_here p v i h paddr flags;
              others = set_other p v i h paddr flags;
              next = refl;
              valid = set_at-IsValid p v i h paddr flags;
            })
    ])
  where
    only :
        (j : ℕ)
        → j < p.user_region_count
        → (region p j).start ≡ start
        → (region p j).end ≡ start + size
        → j ≡ i
    only j k a b = elim (ℕ_discrete j i) [
      | yes same ↦ same
      | no ne ↦ absurd (elim (Apart-any j i v ne k h) [
        | inl x ↦ omega (arith, v.sized j k, v.sized i h)
        | inr x ↦ omega (arith, v.sized j k, v.sized i h)
      ])
    ]

finish_alloc-page_table :
    (start end : ℕ) (p : Process) (r : Status × Process)
    → r.1.page_table ≡ p.page_table
    → (finish_alloc start end p r).1.page_table ≡ p.page_table
finish_alloc-page_table start end p (ok, q) e = e
finish_alloc-page_table start end p (failed, q) e = refl

alloc_at-page_table :
    (p : Process) (start size : ℕ) (o : Option ℕ)
    → (alloc_at p start size o).1.page_table ≡ p.page_table
alloc_at-page_table p start size none = refl
alloc_at-page_table p start size (some end) =
    elim (Bool-cases (ltb start p.next_user_vaddr || ltb user_mmap_limit end)) [
      | inl bad ↦ rw bad refl
      | inr good ↦ rw good (
          finish_alloc-page_table start end p (add_user_region p start size)
            (add_user_region-SameEntry p start size).page_table)
    ]

-- The page table is not a matter of the regions.
pub alloc_user_region-page_table :
    (p : Process) (size : ℕ) → (alloc_user_region p size).1.page_table ≡ p.page_table
unfolding alloc_user_region
alloc_user_region-page_table p size =
    elim (Bool-cases (size == 0 || ltb (align_up size region_align) size)) [
      | inl bad ↦ rw bad refl
      | inr good ↦ rw good (alloc_at-page_table p _ _ _)
    ]
