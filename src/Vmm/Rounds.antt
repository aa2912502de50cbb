-- ===== src/Vmm/Rounds.antt =====
-- The rounds of `vmm_map_range` of kernel/mm/vmm.c: all pages of the span are mapped, or none is.
use mathlib.Core.Bool.{false≢true}
use kolibriarm.Base.{
  ℕ, suc, ◌+◌, ◌-◌, ◌*◌, ◌^◌, ◌<◌, ◌≤◌, ◌≡◌, ◌≢◌, ◌⊎◌, refl, sym, ap, ◌∙◌, subst, true, false,
  arith, if◌then◌else◌, Bool-cases, inl, inr, Status, ok, failed,
}
use kolibriarm.Pmm.{page_size}
use kolibriarm.Vmm.{Vm, has, desc_valid, leaf_entry, map_from, undo_from, page_descriptor}
use kolibriarm.Vmm.Entry.{has_zero, page_descriptor-Points}
use kolibriarm.Vmm.Walk.{same_page}
use kolibriarm.Vmm.Tree.{Tree, leaf_entry-same_page}
use kolibriarm.Vmm.Next.{Kept, AllUsed}
use kolibriarm.Vmm.Map.{MapOutcome, mapped, refused}
use kolibriarm.Vmm.Unmap.{mapping, valid_part, page_of, within, Undone, undo_from-Undone}

-- The descriptor of the frame that a page of the span is given, `frame` the first one's number.
abbrev pub frame_entry : ℕ → ℕ → ℕ → ℕ → ℕ
frame_entry first frame flags w = page_descriptor ((frame + (page_of w - first)) * page_size) flags

-- k pages from `first` on, which were free, are mapped to as many frames.
pub record Filled (first k frame flags pgd : ℕ) (s u : Vm) : Type 0 where
  pub tree : Tree pgd u
  pub view :
      (w : ℕ)
      → mapping pgd u w
        ≡ (if within first k w then frame_entry first frame flags w else mapping pgd s w)
  pub vacant : (w : ℕ) → within first k w ≡ true → mapping pgd s w ≡ 0

pub data RoundsOutcome (first n frame flags pgd : ℕ) (s : Vm) (r : Status × Vm) : Type 0 where
  filled :
      r.0 ≡ ok → Filled first n frame flags pgd s r.1 → RoundsOutcome first n frame flags pgd s r
  rolled_back :
      r.0 ≡ failed
      → Tree pgd r.1
      → ((w : ℕ) → mapping pgd r.1 w ≡ mapping pgd s w)
      → ((w : ℕ) × (within first n w ≡ true) × (mapping pgd s w ≢ 0)) ⊎ AllUsed r.1.pmm
      → RoundsOutcome first n frame flags pgd s r

pub valid_part_valid : (e : ℕ) → has e desc_valid ≡ true → (valid_part e ≡ e) × (e ≢ 0)
valid_part_valid e h =
    (rw h refl, λ z. false≢true (sym has_zero ∙ ap (λ x. has x desc_valid) (sym z) ∙ h))

module _ (first n frame flags pgd : ℕ) (s0 : Vm) (span : first + n ≤ 2 ^ 36) where
  one_more :
      (k : ℕ) (s : Vm) (r : Status × Vm)
      → k < n
      → Filled first k frame flags pgd s0 s
      → Tree pgd r.1
      → has (leaf_entry pgd ((first + k) * page_size) s.memory) desc_valid ≡ false
      → ((w : ℕ)
          → leaf_entry pgd w r.1.memory ≡ (
              if same_page ((first + k) * page_size) w
              then page_descriptor ((frame + k) * page_size) flags
              else leaf_entry pgd w s.memory))
      → Filled first (k + 1) frame flags pgd s0 r.1
  one_more k s r h f tree vacant entries = record { tree = tree; view = view; vacant = before }
    where
      view :
          (w : ℕ)
          → mapping pgd r.1 w
            ≡ (if within first (k + 1) w then frame_entry first frame flags w else mapping pgd s0 w)
      view w = elim (Bool-cases (same_page ((first + k) * page_size) w)) [
        | inl here ↦
            let inside : within first (k + 1) w ≡ true = ground arith in
            let place : frame + k ≡ frame + (page_of w - first) = ground arith in
            let entry : leaf_entry pgd w r.1.memory
                ≡ page_descriptor ((frame + k) * page_size) flags =
              entries w ∙ rw here refl in
            let same : page_descriptor ((frame + k) * page_size) flags
                ≡ frame_entry first frame flags w =
              ap (λ j. page_descriptor (j * page_size) flags) place in
            let valid =
              valid_part_valid (frame_entry first frame flags w)
                (page_descriptor-Points ((frame + (page_of w - first)) * page_size) flags).valid in
            let all : mapping pgd r.1 w ≡ frame_entry first frame flags w =
              ap valid_part (entry ∙ same) ∙ valid.0 in
            all ∙ rw inside refl
        | inr there ↦
            let entry : leaf_entry pgd w r.1.memory ≡ leaf_entry pgd w s.memory =
              entries w ∙ rw there refl in
            ap valid_part entry ∙ f.view w ∙ ground arith
      ]

      before : (w : ℕ) → within first (k + 1) w ≡ true → mapping pgd s0 w ≡ 0
      before w inside = elim (Bool-cases (within first k w)) [
        | inl old ↦ f.vacant w old
        | inr new ↦
            let here : same_page ((first + k) * page_size) w ≡ true = ground arith in
            let e = leaf_entry-same_page pgd ((first + k) * page_size) w s f.tree here in
            let old : mapping pgd s w ≡ mapping pgd s0 w = f.view w ∙ rw new refl in
            sym old ∙ ap valid_part (sym e) ∙ rw vacant refl
      ]

  Undone-all :
      (k : ℕ) (s u x : Vm)
      → Filled first k frame flags pgd s0 s
      → Kept pgd s u
      → Undone first k pgd u x
      → (w : ℕ) → mapping pgd x w ≡ mapping pgd s0 w
  Undone-all k s u x f kept d w = elim (Bool-cases (within first k w)) [
    | inl inside ↦ d.view w ∙ rw inside (sym (f.vacant w inside))
    | inr outside ↦
        d.view w ∙ rw outside (ap valid_part (kept.leaves w) ∙ f.view w ∙ rw outside refl)
  ]

  busy_page :
      (k : ℕ) (s : Vm)
      → k < n
      → Filled first k frame flags pgd s0 s
      → has (leaf_entry pgd ((first + k) * page_size) s.memory) desc_valid ≡ true
      → (w : ℕ) × (within first n w ≡ true) × (mapping pgd s0 w ≢ 0)
  busy_page k s h f valid =
      let w = (first + k) * page_size in
      let outside : within first k w ≡ false = ground arith in
      let (same, nz) = valid_part_valid (leaf_entry pgd w s.memory) valid in
      let old : mapping pgd s w ≡ mapping pgd s0 w = f.view w ∙ rw outside refl in
      (w, ground arith, λ z. nz (sym same ∙ old ∙ z))

  pub rounds_step :
      (k j : ℕ) (s : Vm) (r : Status × Vm)
      → k + suc j ≡ n
      → Filled first k frame flags pgd s0 s
      → MapOutcome pgd ((first + k) * page_size) ((frame + k) * page_size) flags s r
      → ((u : Vm)
          → Filled first (k + 1) frame flags pgd s0 u
          → RoundsOutcome first n frame flags pgd s0 (
              map_from j ((k + 1) * page_size) pgd (first * page_size) (frame * page_size) flags u))
      → RoundsOutcome first n frame flags pgd s0 (elim r.0 as (λ x. Status × Vm) [
        | ok ↦
            map_from j ((k + 1) * page_size) pgd (first * page_size) (frame * page_size) flags r.1
        | failed ↦ (failed, undo_from k (0 * page_size) pgd (first * page_size) r.1)
      ])
  rounds_step k j s (ok, u) h f (refused e kept why) rest = absurd (ground arith)
  rounds_step k j s (failed, u) h f (mapped a b vacant e entries tree) rest = absurd (ground arith)
  rounds_step k j s (ok, u) h f (mapped a b vacant e entries tree) rest =
      rest u (one_more k s (ok, u) (omega arith) f tree vacant entries)
  rounds_step k j s (failed, u) h f (refused e kept why) rest =
      let start : first + 0 ≡ first = omega arith in
      let d =
        subst (λ x. Undone x k pgd u (undo_from k (0 * page_size) pgd (first * page_size) u)) start
          (undo_from-Undone k first 0 pgd u kept.tree (omega arith)) in
      rolled_back refl d.tree (Undone-all k s u _ f kept d) (elim why [
        | inl odd ↦ absurd (odd (omega arith))
        | inr (inl odd) ↦ absurd (odd (omega arith))
        | inr (inr (inl busy)) ↦ inl (busy_page k s (omega arith) f busy)
        | inr (inr (inr used)) ↦ inr (subst AllUsed (sym d.pmm) used)
      ])
