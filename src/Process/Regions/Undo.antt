-- ===== src/Process/Regions/Undo.antt =====
-- A region of kernel/process.c that is added and removed again.
use kolibriarm.Base.{
  ℕ, ◌+◌, ◌^◌, ◌<◌, ◌≡◌, refl, ◌∙◌, ltb, true, arith, inl, inr, Bool-cases, Option-cases, Option,
  leb,
}
use kolibriarm.Process.{Process, Region, set_entry, max_user_regions}
use kolibriarm.Process.Regions.{
  remove_user_region_info, add_user_region, user_region_end, find_region, overlaps,
}
use kolibriarm.Process.Regions.Inv.{IsValid, region, Apart-any}
use kolibriarm.Process.Regions.Remove.{RemoveOutcome, removed, missing, remove_user_region_info_lem}

-- `q` has one region more than `p`, behind the others.
pub record OneMore (p q : Process) (start size : ℕ) : Type 0 where
  pub count : q.user_region_count ≡ p.user_region_count + 1
  pub starts : (region q p.user_region_count).start ≡ start
  pub ends : (region q p.user_region_count).end ≡ start + size
  pub others : (i : ℕ) → i < p.user_region_count → region q i ≡ region p i

-- The regions are those of `p`.
pub record SameRegions (p q : Process) : Type 0 where
  pub count : q.user_region_count ≡ p.user_region_count
  pub all : (i : ℕ) → i < p.user_region_count → region q i ≡ region p i
  pub valid : IsValid q

undo_outcome :
    (p q : Process) (start size : ℕ) (r : Option Region × Process)
    → IsValid q
    → OneMore p q start size
    → RemoveOutcome q start size r
    → SameRegions p r.1
undo_outcome p q start size r v more (missing same differs) =
    absurd (differs p.user_region_count (omega (arith, more.count)) more.starts more.ends)
undo_outcome p q start size r v more (removed i h s e out count rest last valid) =
    elim (Bool-cases (ltb i p.user_region_count)) [
      | inl old ↦ absurd (
          let sized = v.sized i h in
          elim (Apart-any i p.user_region_count v (ground arith) h (omega (arith, more.count))) [
            | inl a ↦ omega (arith, more.starts)
            | inr a ↦ omega (arith, more.ends)
          ])
      | inr new ↦ record {
        count = omega (arith, more.count);
        all = λ j k.
            let below : ltb j i ≡ true = ground arith in
            rest j (omega (arith, more.count)) ∙ rw below (more.others j k);
        valid = valid;
      }
    ]

pub undo_lem :
    (p q : Process) (start size : ℕ)
    → IsValid q
    → size < 2 ^ 64
    → OneMore p q start size
    → SameRegions p (remove_user_region_info q start size).1
undo_lem p q start size v h more =
    undo_outcome p q start size (remove_user_region_info q start size) v more
      (remove_user_region_info_lem q start size v h)

-- The entry of a process touches no region.
pub set_entry-IsValid :
    (p : Process) (pc sp pstate : ℕ) → IsValid p → IsValid (set_entry p pc sp pstate)
unfolding set_entry
set_entry-IsValid p pc sp pstate v = record {
  eight = v.eight;
  counted = v.counted;
  sized = v.sized;
  apart = v.apart;
}

-- `q` starts where `p` does, with the same page table.
pub record SameEntry (p q : Process) : Type 0 where
  pub pc : q.pc ≡ p.pc
  pub sp : q.sp ≡ p.sp
  pub pstate : q.pstate ≡ p.pstate
  pub page_table : q.page_table ≡ p.page_table

pub add_user_region-SameEntry :
    (p : Process) (start size : ℕ) → SameEntry p (add_user_region p start size).1
unfolding add_user_region
add_user_region-SameEntry p start size =
    elim (Bool-cases (leb max_user_regions p.user_region_count)) [
      | inl full ↦ rw full (record { pc = refl; sp = refl; pstate = refl; page_table = refl })
      | inr room ↦ rw room (elim (Option-cases (user_region_end start size)) [
        | inl bad ↦ rw bad (record { pc = refl; sp = refl; pstate = refl; page_table = refl })
        | inr (end, e) ↦ rw e (elim (Option-cases (find_region (overlaps start end) p)) [
          | inl free ↦ rw free (record { pc = refl; sp = refl; pstate = refl; page_table = refl })
          | inr (i, hit) ↦
              rw hit (record { pc = refl; sp = refl; pstate = refl; page_table = refl })
        ])
      ])
    ]
