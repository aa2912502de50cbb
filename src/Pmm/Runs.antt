-- ===== src/Pmm/Runs.antt =====
-- `pmm_alloc_pages` of kernel/mm/pmm.c: the search for a run of free pages.
use kolibriarm.Base.{
  ℕ, zero, suc, ◌+◌, ◌*◌, ◌<◌, ◌≤◌, ◌≡◌, ◌≢◌, refl, ap, ◌∙◌, true, false, ltb, ◌==◌, if◌then◌else◌,
  arith, Bool-cases, inl, inr, ==→eq, ltb→lt,
}
use native.Mathlib.Decide.{dec_lt, ℕ_discrete}
use kolibriarm.Pmm.{Pmm, page_size, is_free, use_range, address, alloc_run, alloc_pages}
use kolibriarm.Pmm.Pages.{taken, taken_free, taken_used}
use kolibriarm.Pmm.Inv.{IsValid}
use kolibriarm.Pmm.Ranges.{Marks, use_range-Marks, free_pages-use_range}

-- One of the `count` pages from `start` on is used.
pub record Blocked (s : Pmm) (count start : ℕ) : Type 0 where
  pub at : ℕ
  pub from : start ≤ at
  pub below : at < start + count
  pub used : taken s.bitmap at ≡ 1

-- The lowest run of `count` free pages has been handed out, or there was none.
pub data RunOutcome (s : Pmm) (count : ℕ) (r : ℕ × Pmm) : Type 0 where
  run :
      (p : ℕ)
      → 0 < count
      → p + count ≤ s.total_pages
      → ((q : ℕ) → p ≤ q → q < p + count → taken s.bitmap q ≡ 0)
      → ((start : ℕ) → start < p → Blocked s count start)
      → r.0 ≡ s.mem_base + p * page_size
      → Marks 1 p count s r.1
      → r.1.free_pages + count ≡ s.free_pages
      → RunOutcome s count r
  refused :
      r ≡ (0, s)
      → (0 < count → (start : ℕ) → start + count ≤ s.total_pages → Blocked s count start)
      → RunOutcome s count r

-- What holds when the loop is about to look at `page`.
record Searching (s : Pmm) (count page run_start run_count : ℕ) : Type 0 where
  short : run_count < count
  within : run_count ≤ page
  start : run_count ≢ 0 → run_start + run_count ≡ page
  open_run : (q : ℕ) → page ≤ q + run_count → q < page → taken s.bitmap q ≡ 0
  blocked : (st : ℕ) → st + run_count < page → Blocked s count st

module _ (s : Pmm) (count : ℕ) (v : IsValid s) where
  found :
      (page p : ℕ)
      → page < s.total_pages
      → is_free s.bitmap page ≡ true
      → 0 < count
      → p + count ≡ page + 1
      → ((q : ℕ) → p ≤ q → q < page → taken s.bitmap q ≡ 0)
      → ((st : ℕ) → st < p → Blocked s count st)
      → RunOutcome s count (address s p, use_range count p s)
  found page p h f c e free blocked =
      run p c (omega arith) all blocked (omega (arith, v))
        (use_range-Marks count p s v (omega arith))
        (free_pages-use_range count p s v (omega arith) all)
    where
      all : (q : ℕ) → p ≤ q → q < p + count → taken s.bitmap q ≡ 0
      all q lo hi = elim (ℕ_discrete q page) [
        | yes same ↦ ap (taken s.bitmap) same ∙ taken_free s.bitmap page f
        | no other ↦ free q lo (omega arith)
      ]

  broken-Searching :
      (page run_start run_count : ℕ)
      → Searching s count page run_start run_count
      → is_free s.bitmap page ≡ false
      → Searching s count (page + 1) run_start 0
  broken-Searching page run_start run_count w f = record {
    short = omega (arith, w.short);
    within = omega arith;
    start = λ ne. absurd (ne refl);
    open_run = λ q lo hi. absurd (omega arith);
    blocked = λ st h. elim (dec_lt (st + run_count) page) [
      | yes before ↦ w.blocked st before
      | no after ↦ record {
        at = page;
        from = omega arith;
        below = omega (arith, w.short);
        used = taken_used s.bitmap page f;
      }
    ];
  }

  longer-Searching :
      (page run_start run_count : ℕ)
      → Searching s count page run_start run_count
      → is_free s.bitmap page ≡ true
      → run_count + 1 ≢ count
      → Searching s count (page + 1) (if run_count == 0 then page else run_start) (run_count + 1)
  longer-Searching page run_start run_count w f ne = record {
    short = omega (arith, w.short);
    within = omega (arith, w.within);
    start = λ _. ground (arith, w.start);
    open_run = λ q lo hi. elim (ℕ_discrete q page) [
      | yes same ↦ ap (taken s.bitmap) same ∙ taken_free s.bitmap page f
      | no other ↦ w.open_run q (omega arith) (omega arith)
    ];
    blocked = λ st h. w.blocked st (omega arith);
  }

  run_begin :
      (page run_start run_count : ℕ)
      → Searching s count page run_start run_count
      → (if run_count == 0 then page else run_start) + run_count ≡ page
  run_begin page run_start run_count w = ground (arith, w.start)

  alloc_run_lem :
      (n page run_start run_count : ℕ)
      → page + n ≡ s.total_pages
      → Searching s count page run_start run_count
      → RunOutcome s count (alloc_run count n page run_start run_count s)
  unfolding alloc_run
  alloc_run_lem zero page run_start run_count e w =
      refused refl (λ _ st h. w.blocked st (omega (arith, w.short)))
  alloc_run_lem (suc n) page run_start run_count e w = elim (Bool-cases (is_free s.bitmap page)) [
    | inl f ↦ rw f (elim (Bool-cases (run_count + 1 == count)) [
      | inl done ↦ rw done (
          found page (if run_count == 0 then page else run_start) (omega arith) f
            (omega (arith, w.short))
            (omega (arith, run_begin page run_start run_count w, ==→eq (run_count + 1) count done))
            (λ q lo hi. w.open_run q (omega (arith, run_begin page run_start run_count w)) hi)
            (λ st h. w.blocked st (omega (arith, run_begin page run_start run_count w))))
      | inr more ↦ rw more (
          alloc_run_lem n (page + 1) _ (run_count + 1) (omega arith)
            (longer-Searching page run_start run_count w f (ground arith)))
    ])
    | inr f ↦ rw f (
        alloc_run_lem n (page + 1) run_start 0 (omega arith)
          (broken-Searching page run_start run_count w f))
  ]

-- On a valid allocator pmm_alloc_pages hands out the lowest run of `count` free pages by the
-- address of its first, marks exactly those used and lowers the free count by `count`; it answers
-- 0 and changes nothing only for a count of 0 or if every run of `count` managed pages holds a
-- used page.
pub alloc_pages_lem : (s : Pmm) (count : ℕ) → IsValid s → RunOutcome s count (alloc_pages s count)
unfolding alloc_pages
alloc_pages_lem s count v = elim (Bool-cases (count == 0)) [
  | inl none ↦ rw none (refused refl (λ h. absurd (omega (arith, ==→eq count 0 none))))
  | inr some ↦ rw some (elim (Bool-cases (ltb s.total_pages count)) [
    | inl many ↦
        rw many (refused refl (λ _ st h. absurd (omega (arith, ltb→lt s.total_pages count many))))
    | inr few ↦ rw few (alloc_run_lem s count v s.total_pages 0 0 0 (omega arith) (searching some))
  ])
]
  where
    searching : (count == 0) ≡ false → Searching s count 0 0 0
    searching e = record {
      short = ground arith;
      within = omega arith;
      start = λ ne. absurd (ne refl);
      open_run = λ q lo hi. absurd (omega arith);
      blocked = λ st h. absurd (omega arith);
    }
