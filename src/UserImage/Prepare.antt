-- ===== src/UserImage/Prepare.antt =====
-- `user_image_entry` and `user_image_prepare_process` of kernel/user_image.c.
use kolibriarm.Base.{
  ℕ, ◌+◌, ◌-◌, ◌^◌, ◌<◌, ◌≡◌, ◌≢◌, refl, sym, ap, ◌∙◌, subst, ◌||◌, ltb, leb, ◌==◌, Status, ok,
  failed, u64, u64_max, arith, Bool-cases, inl, inr,
}
use kolibriarm.Process.{Process, Region, set_entry}
use kolibriarm.Process.Regions.{remove_user_region_info}
use kolibriarm.Process.Regions.Inv.{IsValid, region}
use kolibriarm.Process.Regions.Add.{AddOutcome, added, refused as not_added, add_user_region_lem}
use kolibriarm.Process.Regions.Undo.{
  SameRegions, undo_lem, SameEntry, add_user_region-SameEntry, set_entry-IsValid,
}
use kolibriarm.UserImage.{
  Image, entry_point, add_u64_checked, prepare_process, add_image, add_stack, restore,
}

abbrev pub fresh_region : ℕ → ℕ → Region
fresh_region start size = record { start = start; end = start + size; paddr = 0; flags = 0 }

-- The image has an entry in it.
pub record HasEntry (image : Image) (entry : ℕ) : Type 0 where
  pub inside : image.entry_offset < image.size
  pub at : entry ≡ image.base + image.entry_offset
  pub no_wrap : entry < 2 ^ 64

entry_point_lem : (image : Image) → entry_point image ≢ 0 → HasEntry image (entry_point image)
unfolding entry_point add_u64_checked
entry_point_lem image h =
    elim (Bool-cases (image.base == 0 || image.size == 0 || leb image.size image.entry_offset)) [
      | inl bad ↦ absurd (h (rw bad refl))
      | inr good ↦ elim (Bool-cases (ltb (u64_max - image.entry_offset) image.base)) [
        | inl over ↦ absurd (h (rw (good, over) refl))
        | inr fits ↦
            rw (good, fits)
              (record { inside = ground arith; at = ground arith; no_wrap = omega arith })
      ]
    ]

-- The process starts at the image's entry with the stack's end, and has both regions; or nothing of
-- this has changed.
pub data PrepareOutcome (p : Process) (image : Image) (stack_start stack_size pstate : ℕ)
    (r : Status × Process) : Type 0 where
  prepared :
      r.0 ≡ ok
      → HasEntry image r.1.pc
      → r.1.sp ≡ stack_start + stack_size
      → r.1.pstate ≡ pstate
      → r.1.user_region_count ≡ p.user_region_count + 2
      → region r.1 p.user_region_count ≡ fresh_region image.base image.size
      → region r.1 (p.user_region_count + 1) ≡ fresh_region stack_start stack_size
      → ((i : ℕ) → i < p.user_region_count → region r.1 i ≡ region p i)
      → IsValid r.1
      → PrepareOutcome p image stack_start stack_size pstate r
  refused :
      r.0 ≡ failed
      → r.1.pc ≡ p.pc
      → r.1.sp ≡ p.sp
      → r.1.pstate ≡ p.pstate
      → SameRegions p r.1
      → PrepareOutcome p image stack_start stack_size pstate r

-- `q` is `p` with the entry set and the image's region added.
record Placed (p q : Process) (image : Image) (stack_top pstate : ℕ) : Type 0 where
  entry : HasEntry image q.pc
  sp : q.sp ≡ stack_top
  pstate_set : q.pstate ≡ pstate
  count : q.user_region_count ≡ p.user_region_count + 1
  image_region : region q p.user_region_count ≡ fresh_region image.base image.size
  old : (i : ℕ) → i < p.user_region_count → region q i ≡ region p i
  valid : IsValid q

-- Setting the entry back.
restore_lem :
    (p q : Process) (image : Image) (stack_start stack_size pstate : ℕ)
    → SameRegions p q
    → PrepareOutcome p image stack_start stack_size pstate (failed, restore p q)
unfolding set_entry
restore_lem p q image stack_start stack_size pstate same = refused refl refl refl refl (record {
  count = same.count;
  all = same.all;
  valid = set_entry-IsValid q p.pc p.sp p.pstate same.valid;
})

add_stack_lem :
    (p q : Process) (image : Image) (stack_start stack_size pstate : ℕ) (r : Status × Process)
    → image.size < 2 ^ 64
    → Placed p q image (stack_start + stack_size) pstate
    → SameEntry q r.1
    → AddOutcome q stack_start stack_size r
    → PrepareOutcome p image stack_start stack_size pstate (add_stack p image r)
add_stack_lem p q image stack_start stack_size pstate (failed, u) small h same
      (added s c there rest next valid) =
    absurd (ground arith)
add_stack_lem p q image stack_start stack_size pstate (ok, u) small h same (not_added e why) =
    absurd (ground arith)
add_stack_lem p q image stack_start stack_size pstate (ok, u) small h same
      (added s c there rest next valid) =
    prepared refl (subst (HasEntry image) (sym same.pc) h.entry) (same.sp ∙ h.sp)
      (same.pstate ∙ h.pstate_set) (omega (arith, h.count))
      (rest p.user_region_count (omega (arith, h.count)) ∙ h.image_region)
      (ap (region u) (sym h.count) ∙ there) (λ i k. rest i (omega (arith, h.count)) ∙ h.old i k)
      valid
add_stack_lem p q image stack_start stack_size pstate (failed, u) small h same (not_added e why) =
    let unchanged : u ≡ q = ap (λ (x : Status × Process). x.1) e in
    restore_lem p _ image stack_start stack_size pstate (
      subst (λ x. SameRegions p (remove_user_region_info x image.base image.size).1) (sym unchanged)
        (undo_lem p q image.base image.size h.valid small (record {
          count = h.count;
          starts = ap (λ (x : Region). x.start) h.image_region;
          ends = ap (λ (x : Region). x.end) h.image_region;
          others = h.old;
        })))

add_image_lem :
    (p q : Process) (image : Image) (stack_start stack_size pstate : ℕ) (r : Status × Process)
    → image.size < 2 ^ 64
    → stack_size < 2 ^ 64
    → IsValid p
    → q ≡ set_entry p (entry_point image) (stack_start + stack_size) pstate
    → entry_point image ≢ 0
    → SameEntry q r.1
    → AddOutcome q image.base image.size r
    → PrepareOutcome p image stack_start stack_size pstate
        (add_image p image stack_start stack_size r)
unfolding set_entry
add_image_lem p q image stack_start stack_size pstate (failed, u) small top v is nz same
      (added s c there rest next valid) =
    absurd (ground arith)
add_image_lem p q image stack_start stack_size pstate (ok, u) small top v is nz same
      (not_added e why) =
    absurd (ground arith)
add_image_lem p q image stack_start stack_size pstate (failed, u) small top v is nz same
      (not_added e why) =
    let unchanged : u ≡ set_entry p (entry_point image) (stack_start + stack_size) pstate =
      ap (λ (x : Status × Process). x.1) e ∙ is in
    restore_lem p u image stack_start stack_size pstate (
      subst (SameRegions p) (sym unchanged)
        (record { count = refl; all = λ i h. refl; valid = set_entry-IsValid p _ _ _ v }))
add_image_lem p q image stack_start stack_size pstate (ok, u) small top v is nz same
      (added s c there rest next valid) =
    let count : q.user_region_count ≡ p.user_region_count =
      ap (λ (x : Process). x.user_region_count) is in
    let regions : (i : ℕ) → region q i ≡ region p i = λ i. ap (λ (x : Process). region x i) is in
    let pc : u.pc ≡ entry_point image = same.pc ∙ ap (λ (x : Process). x.pc) is in
    add_stack_lem p u image stack_start stack_size pstate _ small
      (record {
        entry = subst (HasEntry image) (sym pc) (entry_point_lem image nz);
        sp = same.sp ∙ ap (λ (x : Process). x.sp) is;
        pstate_set = same.pstate ∙ ap (λ (x : Process). x.pstate) is;
        count = omega arith;
        image_region = ap (region u) (sym count) ∙ there;
        old = λ i h. rest i (omega arith) ∙ regions i;
        valid = valid;
      })
      (add_user_region-SameEntry u stack_start stack_size)
      (add_user_region_lem u stack_start stack_size valid top)

-- On a process with valid regions, for an image and a stack whose sizes are below 2 ^ 64,
-- `user_image_prepare_process` is all or nothing: the process starts at the entry inside the image,
-- with the end of the stack and the `pstate` given, has the image and the stack as two more regions
-- behind its own, and its regions stay valid; or it fails, and pc, sp, pstate and the regions are as
-- before.
pub prepare_process_lem :
    (p : Process) (image : Image) (stack_start stack_size pstate : ℕ)
    → IsValid p
    → image.size < 2 ^ 64
    → stack_size < 2 ^ 64
    → PrepareOutcome p image stack_start stack_size pstate
        (prepare_process p image stack_start stack_size pstate)
unfolding prepare_process add_u64_checked
prepare_process_lem p image stack_start stack_size pstate v small top =
    let nothing : PrepareOutcome p image stack_start stack_size pstate (failed, p) =
      refused refl refl refl refl (record { count = refl; all = λ i h. refl; valid = v }) in
    elim (Bool-cases (entry_point image == 0 || stack_start == 0 || stack_size == 0)) [
      | inl bad ↦ rw bad nothing
      | inr good ↦ rw good (elim (Bool-cases (ltb (u64_max - stack_size) stack_start)) [
        | inl over ↦ rw over nothing
        | inr fits ↦
            let sum : u64 (stack_start + stack_size) ≡ stack_start + stack_size = ground arith in
            let nz : entry_point image ≢ 0 = ground arith in
            rw (fits, sum)
              (add_image_lem p _ image stack_start stack_size pstate _ small top v refl nz
                (add_user_region-SameEntry _ image.base image.size)
                (add_user_region_lem _ image.base image.size (set_entry-IsValid p _ _ _ v) small))
      ])
    ]
