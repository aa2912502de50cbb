-- ===== src/SyscallHelpers/Text.antt =====
-- `sys_user_copy_cstr` of kernel/syscall_helpers.c.
use native.Mathlib.Decide.{ℕ_discrete}
use kolibriarm.Base.{
  ℕ, zero, suc, ◌+◌, ◌-◌, ◌^◌, ◌<◌, ◌≤◌, ◌≡◌, ◌≢◌, refl, sym, ap, ◌∙◌, subst, true, ◌||◌, not, List,
  Option, none, some, ltb, leb, ◌==◌, if◌then◌else◌, get_or, set, u64_max, length, length-set,
  get_or-set_self, get_or-set_ne, arith, Bool-cases, inl, inr, ==→eq,
}
use kolibriarm.Process.{Process}
use kolibriarm.Process.Regions.{user_range_contains}
use kolibriarm.SyscallHelpers.{Error, inval, user_buf_range, is_error, copy_from, user_copy_cstr}

-- The process may read the byte.
abbrev pub Readable : Process → ℕ → Type 0
Readable p address = (address < 2 ^ 64) × (user_range_contains p address 1 ≡ true)

-- From the address on there are k bytes that are not zero and then one that is, all readable.
pub record IsText (p : Process) (ptr : ℕ) (m : ℕ → ℕ) (k : ℕ) : Type 0 where
  pub readable : (j : ℕ) → j ≤ k → Readable p (ptr + j)
  pub chars : (j : ℕ) → j < k → m (ptr + j) ≢ 0
  pub end : m (ptr + k) ≡ 0

-- The text has been copied with its end; or no text ends within the capacity.
pub data CopyOutcome (p : Process) (ptr : ℕ) (m : ℕ → ℕ) (out : List ℕ) (capacity : ℕ)
    (r : Option Error × List ℕ) : Type 0 where
  copied :
      (k : ℕ)
      → k < capacity
      → IsText p ptr m k
      → r.0 ≡ none
      → ((j : ℕ) → get_or r.1 j 0 ≡ (if leb j k then m (ptr + j) else get_or out j 0))
      → CopyOutcome p ptr m out capacity r
  refused :
      r.0 ≡ some inval
      → ((k : ℕ) → k < capacity → ¬ IsText p ptr m k)
      → CopyOutcome p ptr m out capacity r

readable_lem :
    (p : Process) (a : ℕ)
    → a ≢ 0
    → is_error (user_buf_range p a 1) ≡ not (user_range_contains p a 1)
unfolding user_buf_range
readable_lem p a h = ground arith

-- Where the loop has come to byte i.
record Copying (p : Process) (ptr : ℕ) (m : ℕ → ℕ) (out : List ℕ) (i : ℕ) (now : List ℕ)
    : Type 0 where
  before : (j : ℕ) → j < i → Readable p (ptr + j) × (m (ptr + j) ≢ 0)
  content : (j : ℕ) → get_or now j 0 ≡ (if ltb j i then m (ptr + j) else get_or out j 0)
  room : length now ≡ length out

module _ {p : Process} {ptr : ℕ} {m : ℕ → ℕ} {out : List ℕ} {i : ℕ} {now : List ℕ}
    (c : Copying p ptr m out i now) where
  blocked : ¬ Readable p (ptr + i) → (k : ℕ) → ¬ IsText p ptr m k
  blocked bad k text = elim (Bool-cases (ltb k i)) [
    | inl early ↦ (c.before k (ground arith)).1 text.end
    | inr late ↦ bad (text.readable i (ground arith))
  ]

  ended : Readable p (ptr + i) → m (ptr + i) ≡ 0 → IsText p ptr m i
  ended here zero_byte = record {
    readable = λ j h. elim (ℕ_discrete j i) [
      | yes same ↦ subst (λ x. Readable p (ptr + x)) (sym same) here
      | no ne ↦ (c.before j (omega arith)).0
    ];
    chars = λ j h. (c.before j h).1;
    end = zero_byte;
  }

  written :
      i < length out
      → (j : ℕ)
      → get_or (set now i (m (ptr + i))) j 0
        ≡ (if ltb j (i + 1) then m (ptr + j) else get_or out j 0)
  written h j = elim (ℕ_discrete j i) [
    | yes same ↦
        let e : ltb j (i + 1) ≡ true = ground arith in
        ap (λ x. get_or (set now i (m (ptr + i))) x 0) same
        ∙ get_or-set_self now i (m (ptr + i)) 0 (omega (arith, c.room))
        ∙ ap (λ x. m (ptr + x)) (sym same)
        ∙ rw e refl
    | no ne ↦ get_or-set_ne now i j (m (ptr + i)) 0 (λ e. ne (sym e)) ∙ c.content j ∙ ground arith
  ]

  advance :
      i < length out
      → Readable p (ptr + i)
      → m (ptr + i) ≢ 0
      → Copying p ptr m out (i + 1) (set now i (m (ptr + i)))
  advance h here char = record {
    before = λ j k. elim (ℕ_discrete j i) [
      | yes same ↦ subst (λ x. Readable p (ptr + x) × (m (ptr + x) ≢ 0)) (sym same) (here, char)
      | no ne ↦ c.before j (omega arith)
    ];
    content = written h;
    room = length-set now i (m (ptr + i)) ∙ c.room;
  }

copy_from_lem :
    (p : Process) (ptr : ℕ) (m : ℕ → ℕ) (out : List ℕ) (capacity n i : ℕ) (now : List ℕ)
    → ptr ≢ 0
    → capacity ≤ length out
    → i + n ≡ capacity
    → Copying p ptr m out i now
    → CopyOutcome p ptr m out capacity (copy_from n i p ptr m now)
unfolding copy_from
copy_from_lem p ptr m out capacity zero i now nz room h c =
    refused refl (λ k below text. (c.before k (omega arith)).1 text.end)
copy_from_lem p ptr m out capacity (suc n) i now nz room h c =
    elim (Bool-cases (ltb (u64_max - i) ptr)) [
      | inl over ↦ rw over (refused refl (λ k below. blocked c (λ here. ground arith) k))
      | inr fits ↦
          rw (fits, readable_lem p (ptr + i) (omega arith))
            (elim (Bool-cases (user_range_contains p (ptr + i) 1)) [
              | inr shut ↦ rw shut (refused refl (λ k below. blocked c (λ here. ground arith) k))
              | inl readable ↦ rw readable (elim (Bool-cases (m (ptr + i) == 0)) [
                | inl end ↦ rw end (
                    copied i (omega arith) (ended c (ground arith) (==→eq (m (ptr + i)) 0 end)) refl
                      (λ j. written c (omega arith) j ∙ ground arith))
                | inr char ↦ rw char (
                    copy_from_lem p ptr m out capacity n (i + 1) (set now i (m (ptr + i))) nz room
                      (omega arith) (advance c (omega arith) (ground arith) (ground arith)))
              ])
            ])
    ]

-- For a pointer that is not null and a place of at least `capacity` bytes, `sys_user_copy_cstr`
-- succeeds exactly if a text starts at the pointer whose end comes within the capacity, with every
-- byte up to its end accepted by `process_user_range_contains`: it then copies the text and its end
-- and leaves the bytes behind them. Otherwise it returns ERR_INVAL.
pub user_copy_cstr_lem :
    (p : Process) (ptr : ℕ) (m : ℕ → ℕ) (out : List ℕ) (capacity : ℕ)
    → capacity ≤ length out
    → ptr ≢ 0
    → CopyOutcome p ptr m out capacity (user_copy_cstr p ptr m out capacity)
unfolding user_copy_cstr
user_copy_cstr_lem p ptr m out capacity room nz = elim (Bool-cases (ptr == 0 || capacity == 0)) [
  | inl bad ↦ rw bad (refused refl (λ k below. absurd (ground arith)))
  | inr good ↦ rw good (
      copy_from_lem p ptr m out capacity capacity 0 out nz room (omega arith)
        (record { before = λ j h. absurd (omega arith); content = λ j. ground arith; room = refl }))
]
