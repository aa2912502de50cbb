-- ===== src/Base/Copy.antt =====
-- The loop `for (k = 0; k < n; k++) dest[j + k] = src[i + k];` and the loop that writes one value.
use Prim.Native.Nat.{ℕ, zero, suc, ◌+◌, ◌-◌, ◌<◌, ◌≤◌}
use mathlib.Core.Path.{◌≡◌, refl, ap, ap₂, ◌∙◌}
use mathlib.Core.Bool.{◌&&◌}
use mathlib.Core.List.{List, [], ◌∷◌, ◌++◌}
use native.Mathlib.Omega.{arith}
use native.Mathlib.Decide.{ℕ_discrete}
use kolibriarm.Base.Tests.{ltb, leb, if◌then◌else◌}
use kolibriarm.Base.Lists.{
  length, get_or, set, take, replicate, length-set, get_or-set_self, get_or-set_ne,
}

unfoldable pub copy : ℕ → List ℕ → ℕ → List ℕ → ℕ → List ℕ
copy zero src i dest j = dest
copy (suc n) src i dest j = copy n src (i + 1) (set dest j (get_or src i 0)) (j + 1)

unfoldable pub fill : ℕ → ℕ → List ℕ → ℕ → List ℕ
fill zero v dest j = dest
fill (suc n) v dest j = fill n v (set dest j v) (j + 1)

pub length-copy :
    (n : ℕ) (src : List ℕ) (i : ℕ) (dest : List ℕ) (j : ℕ)
    → length (copy n src i dest j) ≡ length dest
unfolding copy
length-copy zero src i dest j = refl
length-copy (suc n) src i dest j =
    length-copy n src (i + 1) (set dest j (get_or src i 0)) (j + 1)
    ∙ length-set dest j (get_or src i 0)

pub length-fill : (n v : ℕ) (dest : List ℕ) (j : ℕ) → length (fill n v dest j) ≡ length dest
unfolding fill
length-fill zero v dest j = refl
length-fill (suc n) v dest j = length-fill n v (set dest j v) (j + 1) ∙ length-set dest j v

get_or-set :
    (xs : List ℕ) (j q v : ℕ)
    → j < length xs
    → get_or (set xs j v) q 0 ≡ (if leb j q && ltb q (j + 1) then v else get_or xs q 0)
get_or-set xs j q v h = elim (ℕ_discrete j q) [
  | yes e ↦
      ap (λ k. get_or (set xs j v) k 0) (omega arith) ∙ get_or-set_self xs j v 0 h ∙ ground arith
  | no ne ↦ get_or-set_ne xs j q v 0 ne ∙ ground arith
]

-- The copied bytes are those of the source, and the others stay.
pub get_or-copy :
    (n : ℕ) (src : List ℕ) (i : ℕ) (dest : List ℕ) (j q : ℕ)
    → j + n ≤ length dest
    → get_or (copy n src i dest j) q 0
      ≡ (if leb j q && ltb q (j + n) then get_or src (i + (q - j)) 0 else get_or dest q 0)
unfolding copy
get_or-copy zero src i dest j q h = ground arith
get_or-copy (suc n) src i dest j q h =
    get_or-copy n src (i + 1) (set dest j (get_or src i 0)) (j + 1) q
      (omega (arith, length-set dest j (get_or src i 0)))
    ∙ ground (arith, get_or-set dest j q (get_or src i 0))

pub get_or-fill :
    (n v : ℕ) (dest : List ℕ) (j q : ℕ)
    → j + n ≤ length dest
    → get_or (fill n v dest j) q 0 ≡ (if leb j q && ltb q (j + n) then v else get_or dest q 0)
unfolding fill
get_or-fill zero v dest j q h = ground arith
get_or-fill (suc n) v dest j q h =
    get_or-fill n v (set dest j v) (j + 1) q (omega (arith, length-set dest j v))
    ∙ ground (arith, get_or-set dest j q v)

-- Two lists of one length with the same elements are equal.
pub list_ext :
    (xs ys : List ℕ)
    → length xs ≡ length ys
    → ((q : ℕ) → q < length xs → get_or xs q 0 ≡ get_or ys q 0)
    → xs ≡ ys
list_ext [] [] e h = refl
list_ext [] (y ∷ ys) e h = absurd (omega arith)
list_ext (x ∷ xs) [] e h = absurd (omega arith)
list_ext (x ∷ xs) (y ∷ ys) e h =
    ap₂ ◌∷◌ (h 0 (omega arith)) (list_ext xs ys (omega arith) (λ q k. h (suc q) (omega arith)))

pub get_or-take_zeros :
    (n k q : ℕ) (src : List ℕ)
    → n ≤ length src
    → get_or (take n src ++ replicate k 0) q 0 ≡ (if ltb q n then get_or src q 0 else 0)
get_or-take_zeros zero zero q src h = ground arith
get_or-take_zeros zero (suc k) zero src h = ground arith
get_or-take_zeros zero (suc k) (suc q) src h = get_or-take_zeros zero k q src h ∙ ground arith
get_or-take_zeros (suc n) k q [] h = absurd (omega arith)
get_or-take_zeros (suc n) k zero (x ∷ src) h = ground arith
get_or-take_zeros (suc n) k (suc q) (x ∷ src) h =
    get_or-take_zeros n k q src (omega arith) ∙ ground arith
