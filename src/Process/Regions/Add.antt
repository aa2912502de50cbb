-- ===== src/Process/Regions/Add.antt =====
-- `process_add_user_region` and `process_alloc_user_region` of kernel/process.c.
use native.Mathlib.Decide.{ℕ_discrete}
use kolibriarm.Base.{
  ℕ, ◌+◌, ◌^◌, ◌<◌, ◌≤◌, ◌≡◌, ◌⊎◌, refl, sym, ap, ◌∙◌, subst, false, none, some, leb, length-set,
  arith, inl, inr, Option-cases, Bool-cases, Status, ok, failed, get_or-set_self, get_or-set_ne,
  first_index-some, first_index-none,
}
use kolibriarm.Process.{Process, Region, cleared_region, max_user_regions}
use kolibriarm.Process.Regions.{
  user_region_end, overlaps, find_region, add_user_region, append_region,
}
use kolibriarm.Process.Regions.Inv.{IsValid, region, user_region_end-some, user_region_end-none}

-- Why a range is refused.
abbrev pub Refused : Process → ℕ → ℕ → Type 0
Refused p start size =
    (p.user_region_count ≡ max_user_regions)
    ⊎ ((size ≡ 0)
        ⊎ ((2 ^ 64 ≤ start + size)
            ⊎ ((i : ℕ) × (i < p.user_region_count)
                × (start < (region p i).end)
                × ((region p i).start < start + size))))

-- A range has been added behind the others, or refused with no change.
pub data AddOutcome (p : Process) (start size : ℕ) (r : Status × Process) : Type 0 where
  added :
      r.0 ≡ ok
      → r.1.user_region_count ≡ p.user_region_count + 1
      → region r.1 p.user_region_count
        ≡ record { start = start; end = start + size; paddr = 0; flags = 0 }
      → ((i : ℕ) → i < p.user_region_count → region r.1 i ≡ region p i)
      → r.1.next_user_vaddr ≡ p.next_user_vaddr
      → IsValid r.1
      → AddOutcome p start size r
  refused : r ≡ (failed, p) → Refused p start size → AddOutcome p start size r

abbrev appended : Process → ℕ → ℕ → Process
appended p start end = (append_region p start end none).1

module _ (p : Process) (v : IsValid p) (start end : ℕ)
    (room : p.user_region_count < max_user_regions) where
  appended_new :
      region (appended p start end) p.user_region_count
      ≡ record { start = start; end = end; paddr = 0; flags = 0 }
  appended_new =
      get_or-set_self p.user_regions p.user_region_count _ cleared_region (omega (arith, v.eight))

  appended_old : (i : ℕ) → i < p.user_region_count → region (appended p start end) i ≡ region p i
  appended_old i h =
      get_or-set_ne p.user_regions p.user_region_count i _ cleared_region
        (λ e. absurd (omega arith))

  appended-IsValid :
      start < end
      → end < 2 ^ 64
      → ((i : ℕ) → i < p.user_region_count → overlaps start end (region p i) ≡ false)
      → IsValid (appended p start end)
  appended-IsValid h k free = record {
    eight = length-set p.user_regions p.user_region_count _ ∙ v.eight;
    counted = omega arith;
    sized = λ i hi. elim (ℕ_discrete i p.user_region_count) [
      | yes e ↦
          subst (λ (r : Region). (r.start < r.end) × (r.end < 2 ^ 64))
            (sym (ap (region (appended p start end)) e ∙ appended_new)) (h, k)
      | no ne ↦
          subst (λ (r : Region). (r.start < r.end) × (r.end < 2 ^ 64))
            (sym (appended_old i (omega arith))) (v.sized i (omega arith))
    ];
    apart = λ i j hij hj. elim (ℕ_discrete j p.user_region_count) [
      | yes e ↦ ground (
        arith,
        appended_old i (omega arith),
        ap (region (appended p start end)) e ∙ appended_new,
        free i (omega arith),
        v.sized i,
      )
      | no ne ↦
          ground (arith, appended_old i (omega arith), appended_old j (omega arith), v.apart i j)
    ];
  }

-- On a process with valid regions, for a size below 2 ^ 64, `process_add_user_region` adds the range
-- behind the others and keeps the regions valid; or it refuses the range and changes nothing, and then
-- the regions are full, the range is empty, it leaves the address space, or it overlaps a region.
pub add_user_region_lem :
    (p : Process) (start size : ℕ)
    → IsValid p
    → size < 2 ^ 64
    → AddOutcome p start size (add_user_region p start size)
unfolding add_user_region
add_user_region_lem p start size v w =
    elim (Bool-cases (leb max_user_regions p.user_region_count)) [
      | inl full ↦ rw full (refused refl (inl (ground arith)))
      | inr room ↦ rw room (elim (Option-cases (user_region_end start size)) [
        | inl bad ↦ rw bad (
            refused refl (
              inr (elim (user_region_end-none start size bad) [
                | inl z ↦ inl z
                | inr o ↦ inr (inl o)
              ])))
        | inr (end, e) ↦
            let (pos, sum, fits) = user_region_end-some start size end w e in
            rw e (elim (Option-cases (find_region (overlaps start end) p)) [
              | inr (i, hit) ↦ rw hit (refused refl (inr (inr (inr (hit_overlaps i end sum hit)))))
              | inl free ↦ rw free (
                  added refl refl (new_region end sum (ground arith))
                    (appended_old p v start end (ground arith)) refl
                    (appended-IsValid p v start end (ground arith) (omega arith) fits (λ i h.
                      first_index-none (overlaps start end) p.user_region_count p.user_regions
                        cleared_region i free h (omega (arith, v)))))
            ])
      ])
    ]
  where
    hit_overlaps :
        (i end : ℕ)
        → end ≡ start + size
        → find_region (overlaps start end) p ≡ some i
        → (i : ℕ) × (i < p.user_region_count)
          × (start < (region p i).end)
          × ((region p i).start < start + size)
    hit_overlaps i end sum hit =
        let (below, _, test) =
          first_index-some (overlaps start end) p.user_region_count p.user_regions cleared_region i
            hit in
        (i, below, ground arith, ground arith)

    new_region :
        (end : ℕ)
        → end ≡ start + size
        → p.user_region_count < max_user_regions
        → region (appended p start end) p.user_region_count
          ≡ record { start = start; end = start + size; paddr = 0; flags = 0 }
    new_region end sum room =
        appended_new p v start end room
        ∙ ap (λ k. record { start = start; end = k; paddr = 0; flags = 0 }) sum
