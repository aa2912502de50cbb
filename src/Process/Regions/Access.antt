-- ===== src/Process/Regions/Access.antt =====
-- `process_user_range_contains` of kernel/process.c, the check of every user pointer.
use kolibriarm.Base.{
  ℕ, ◌+◌, ◌^◌, ◌<◌, ◌≤◌, ◌≡◌, ◌⊎◌, ◌↔◌, true, some, ◌==◌, arith, Status, ok, ==→eq, inl, inr,
  Option-cases, Bool-cases, first_index-some, first_index-none,
}
use kolibriarm.Process.{Process, cleared_region}
use kolibriarm.Process.Regions.{
  user_region_end, encloses, find_region, user_range_contains, contains_range, add_user_region,
}
use kolibriarm.Process.Regions.Inv.{IsValid, region, user_region_end-some, user_region_end_fits}
use kolibriarm.Process.Regions.Add.{AddOutcome, added, refused, add_user_region_lem}

-- One region holds all `size` bytes from `start` on.
abbrev pub Inside : Process → ℕ → ℕ → Type 0
Inside p start size =
    (i : ℕ) × (i < p.user_region_count)
    × ((region p i).start ≤ start)
    × (start + size ≤ (region p i).end)

-- On a process with valid regions, for a size below 2 ^ 64, process_user_range_contains accepts a
-- range exactly if it is empty or one region holds all of it.
pub user_range_contains_iff :
    (p : Process) (start size : ℕ)
    → IsValid p
    → size < 2 ^ 64
    → (user_range_contains p start size ≡ true) ↔ ((size ≡ 0) ⊎ Inside p start size)
unfolding user_range_contains
user_range_contains_iff p start size v w = (only, back)
  where
    only : user_range_contains p start size ≡ true → (size ≡ 0) ⊎ Inside p start size
    only e = elim (Bool-cases (size == 0)) [
      | inl z ↦ inl (==→eq size 0 z)
      | inr pos ↦ inr (inside (rw pos at e))
    ]
      where
        inside : contains_range p start (user_region_end start size) ≡ true → Inside p start size
        inside e = elim (Option-cases (user_region_end start size)) [
          | inl bad ↦ absurd (ground arith)
          | inr (end, f) ↦ elim (Option-cases (find_region (encloses start end) p)) [
            | inl nowhere ↦ absurd (ground arith)
            | inr (i, hit) ↦
                let (_, sum, _) = user_region_end-some start size end w f in
                let (below, _, test) =
                  first_index-some (encloses start end) p.user_region_count p.user_regions
                    cleared_region i hit in
                (i, below, ground arith, ground arith)
          ]
        ]

    back : (size ≡ 0) ⊎ Inside p start size → user_range_contains p start size ≡ true
    back (inl z) = ground arith
    back (inr (i, h, lo, hi)) = elim (Bool-cases (size == 0)) [
      | inl z ↦ rw z
      | inr pos ↦
          let fits : user_region_end start size ≡ some (start + size) =
            user_region_end_fits start size (ground arith) (omega (arith, v.sized i h)) in
          rw (pos, fits)
            (elim (Option-cases (find_region (encloses start (start + size)) p)) [
              | inr (j, hit) ↦ ground arith
              | inl nowhere ↦ ground (
                arith,
                first_index-none (encloses start (start + size)) p.user_region_count p.user_regions
                    cleared_region i nowhere h (omega (arith, v)),
              )
            ])
    ]

-- On a process with valid regions, for a size below 2 ^ 64, `process_user_range_contains` accepts a
-- range that `process_add_user_region` has just accepted.
pub user_range_contains-add_user_region :
    (p : Process) (start size : ℕ)
    → IsValid p
    → size < 2 ^ 64
    → (add_user_region p start size).0 ≡ ok
    → user_range_contains (add_user_region p start size).1 start size ≡ true
user_range_contains-add_user_region p start size v w e =
    go (add_user_region p start size) (add_user_region_lem p start size v w) e
  where
    go :
        (r : Status × Process)
        → AddOutcome p start size r
        → r.0 ≡ ok
        → user_range_contains r.1 start size ≡ true
    go r (refused same why) e = cc
    go r (added s c new old next valid) e =
        (user_range_contains_iff r.1 start size valid w).1
          (inr (p.user_region_count, omega arith, ground arith, ground arith))
