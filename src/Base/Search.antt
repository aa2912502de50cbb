-- ===== src/Base/Search.antt =====
-- The loop `for (i = 0; i < count; i++) if (test(a[i])) return i;` over an array.
use Prim.Native.Nat.{ℕ, zero, suc, ◌<◌}
use mathlib.Core.Path.{◌≡◌}
use mathlib.Core.Bool.{Bool, true, false}
use mathlib.Core.List.{List, [], ◌∷◌}
use mathlib.Core.Option.{Option, none, some}
use native.Mathlib.Omega.{arith}
use kolibriarm.Base.Tests.{if◌then◌else◌}
use kolibriarm.Base.Lists.{length, get_or}

module _ {ℓ} {A : Type ℓ} (test : A → Bool) where
  unfoldable pub first_index : ℕ → List A → Option ℕ
  first_index zero xs = none
  first_index (suc n) [] = none
  first_index (suc n) (x ∷ xs) =
      if test x then some 0 else elim (first_index n xs) [ none ↦ none | some i ↦ some (suc i) ]

  pub first_index-some :
      (n : ℕ) (xs : List A) (d : A) (i : ℕ)
      → first_index n xs ≡ some i
      → (i < n) × (i < length xs) × (test (get_or xs i d) ≡ true)
  unfolding first_index
  first_index-some zero xs d i e = ground arith
  first_index-some (suc n) [] d i e = ground arith
  first_index-some (suc n) (x ∷ xs) d zero e = ground arith
  first_index-some (suc n) (x ∷ xs) d (suc i) e = ground (arith, first_index-some n xs d i)

  -- No earlier element passes.
  pub first_index-lowest :
      (n : ℕ) (xs : List A) (d : A) (i j : ℕ)
      → first_index n xs ≡ some i
      → j < i
      → test (get_or xs j d) ≡ false
  unfolding first_index
  first_index-lowest zero xs d i j e h = ground arith
  first_index-lowest (suc n) [] d i j e h = ground arith
  first_index-lowest (suc n) (x ∷ xs) d zero j e h = absurd (omega arith)
  first_index-lowest (suc n) (x ∷ xs) d (suc i) zero e h = ground arith
  first_index-lowest (suc n) (x ∷ xs) d (suc i) (suc j) e h =
      ground (arith, first_index-lowest n xs d i j)

  pub first_index-none :
      (n : ℕ) (xs : List A) (d : A) (j : ℕ)
      → first_index n xs ≡ none
      → j < n
      → j < length xs
      → test (get_or xs j d) ≡ false
  unfolding first_index
  first_index-none zero xs d j e h k = absurd (omega arith)
  first_index-none (suc n) [] d j e h k = absurd (omega arith)
  first_index-none (suc n) (x ∷ xs) d zero e h k = ground arith
  first_index-none (suc n) (x ∷ xs) d (suc j) e h k = ground (arith, first_index-none n xs d j)
