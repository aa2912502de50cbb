-- ===== src/Bits.antt =====
-- The bit operations of C on numbers of any width: `bit i w` is bit i of w, and the laws say
-- what `&`, `|`, `1 << i` and `~` do to it. The mask forms that the kernel uses follow.
use Prim.Native.Nat.{digits, bit_and-bitwise, bit_or-bitwise}
use native.Mathlib.Decide.{ℕ_discrete}
use native.Mathlib.Nat.{
  pow-le-pow_right, div-div-eq-div-mul, pow-suc, mul-add-mod_self_right, mod-eq_of_lt, mod-lt,
  div-add-mod',
}
use kolibriarm.Base.{
  ℕ, zero, suc, ◌+◌, ◌-◌, ◌*◌, ◌/◌, ◌%◌, ◌^◌, ◌≤◌, ◌<◌, ◌≡◌, refl, sym, ◌∙◌, ◌≡⟨◌⟩◌, ◌∎, min, max,
  bit_and, bit_or, arith, ap, ap₂, if◌then◌else◌, ◌==◌, Bool-cases, inl, inr,
}

abbrev pub bit : ℕ → ℕ → ℕ
bit zero w = w % 2
bit (suc i) w = bit i (w / 2)

-- `&` and `|` are one recursion over binary digits, with a count of digits that may be too large.
module _ (rest : ℕ → ℕ) (pick : ℕ → ℕ → ℕ) where
  one_more : (n x y : ℕ) → x ≤ n → digits rest pick (suc n) x y ≡ digits rest pick n x y
  one_more zero zero y h = refl
  one_more (suc n) zero y h = refl
  one_more zero (suc x) y h = absurd (omega arith)
  one_more (suc n) (suc x) y h =
      ap (λ (k : ℕ). k * 2 + pick (suc x % 2) (y % 2))
        (one_more n (suc x / 2) (y / 2) (omega arith))

  fewer : (m n x y : ℕ) → x ≤ n → n ≤ m → digits rest pick m x y ≡ digits rest pick n x y
  fewer zero zero x y h k = refl
  fewer zero (suc n) x y h k = absurd (omega arith)
  fewer (suc m) n x y h k = elim (ℕ_discrete n (suc m)) [
    | yes same ↦ ap (λ c. digits rest pick c x y) (sym same)
    | no less ↦ one_more m x y (omega arith) ∙ fewer m n x y h (omega arith)
  ]

  -- The lowest digit, and the same operation on the other digits.
  lowest :
      (x y : ℕ)
      → digits rest pick (suc x) (suc x) y
        ≡ digits rest pick (suc x / 2) (suc x / 2) (y / 2) * 2 + pick (suc x % 2) (y % 2)
  lowest x y =
      ap (λ (k : ℕ). k * 2 + pick (suc x % 2) (y % 2))
        (fewer x (suc x / 2) (suc x / 2) (y / 2) (omega arith) (omega arith))

zero-bit_and : (y : ℕ) → bit_and 0 y ≡ 0
zero-bit_and y = bit_and-bitwise 0 y

zero-bit_or : (y : ℕ) → bit_or 0 y ≡ y
zero-bit_or y = bit_or-bitwise 0 y

pub bit_and_digit : (x y : ℕ) → bit_and x y ≡ bit_and (x / 2) (y / 2) * 2 + min (x % 2) (y % 2)
bit_and_digit zero y = omega (arith, zero-bit_and)
bit_and_digit (suc x) y =
    bit_and-bitwise (suc x) y
    ∙ lowest (λ _. zero) min x y
    ∙ ap (λ (k : ℕ). k * 2 + min (suc x % 2) (y % 2)) (sym (bit_and-bitwise (suc x / 2) (y / 2)))

pub bit_or_digit : (x y : ℕ) → bit_or x y ≡ bit_or (x / 2) (y / 2) * 2 + max (x % 2) (y % 2)
bit_or_digit zero y = omega (arith, zero-bit_or)
bit_or_digit (suc x) y =
    bit_or-bitwise (suc x) y
    ∙ lowest (λ k. k) max x y
    ∙ ap (λ (k : ℕ). k * 2 + max (suc x % 2) (y % 2)) (sym (bit_or-bitwise (suc x / 2) (y / 2)))

pub bit-bit_and : (i a b : ℕ) → bit i (bit_and a b) ≡ min (bit i a) (bit i b)
bit-bit_and zero a b = omega (arith, bit_and_digit a b)
bit-bit_and (suc i) a b = ap (bit i) (halved a b) ∙ bit-bit_and i (a / 2) (b / 2)
  where
    halved : (a b : ℕ) → bit_and a b / 2 ≡ bit_and (a / 2) (b / 2)
    halved a b = omega (arith, bit_and_digit a b)

pub bit-bit_or : (i a b : ℕ) → bit i (bit_or a b) ≡ max (bit i a) (bit i b)
bit-bit_or zero a b = omega (arith, bit_or_digit a b)
bit-bit_or (suc i) a b = ap (bit i) (halved a b) ∙ bit-bit_or i (a / 2) (b / 2)
  where
    halved : (a b : ℕ) → bit_or a b / 2 ≡ bit_or (a / 2) (b / 2)
    halved a b = omega (arith, bit_or_digit a b)

pub bit-zero : (i : ℕ) → bit i 0 ≡ 0
bit-zero zero = refl
bit-zero (suc i) = bit-zero i

-- `1 << k` has bit k alone.
pub bit-one_shl : (i k : ℕ) → bit i (2 ^ k) ≡ (if i == k then 1 else 0)
bit-one_shl zero zero = refl
bit-one_shl (suc i) zero = rw (bit-zero i) (ground arith)
bit-one_shl zero (suc k) = rw pow-suc (ground arith)
bit-one_shl (suc i) (suc k) = ap (bit i) (half k) ∙ bit-one_shl i k ∙ ground arith
  where
    half : (k : ℕ) → 2 ^ suc k / 2 ≡ 2 ^ k
    half k = rw pow-suc (omega arith)

pub bit_lt_two : (i w : ℕ) → bit i w < 2
bit_lt_two zero w = omega arith
bit_lt_two (suc i) w = bit_lt_two i (w / 2)

-- `~m` in n bits is `2 ^ n - 1 - m`.
pub bit-complement : (n i m : ℕ) → i < n → m < 2 ^ n → bit i (2 ^ n - 1 - m) ≡ 1 - bit i m
bit-complement zero i m h k = elim h [ ]
bit-complement (suc n) zero m h k = omega (arith, pow-suc 2 n)
bit-complement (suc n) (suc i) m h k =
    ap (bit i) half ∙ bit-complement n i (m / 2) (omega arith) (omega (arith, pow-suc 2 n))
  where
    half : (2 ^ suc n - 1 - m) / 2 ≡ 2 ^ n - 1 - m / 2
    half = omega (arith, pow-suc 2 n)

bit_and-zero : (n w : ℕ) → w ≤ n → bit_and w 0 ≡ 0
bit_and-zero n zero h = zero-bit_and 0
bit_and-zero zero (suc w) h = absurd (omega arith)
bit_and-zero (suc n) (suc w) h =
    bit_and_digit (suc w) 0
    ∙ ap (λ (k : ℕ). k * 2 + min (suc w % 2) 0) (bit_and-zero n (suc w / 2) (omega arith))
    ∙ omega arith

-- The test of one bit, `w & (1 << i)`.
pub bit_and-one_shl : (i w : ℕ) → bit_and w (2 ^ i) ≡ bit i w * 2 ^ i
bit_and-one_shl zero w =
    omega (arith, bit_and_digit w 1, bit_and-zero (w / 2) (w / 2) (omega arith))
bit_and-one_shl (suc i) w =
    bit_and w (2 ^ suc i)
    ≡⟨ bit_and_digit w (2 ^ suc i) ⟩
      bit_and (w / 2) (2 ^ suc i / 2) * 2 + min (w % 2) (2 ^ suc i % 2)
    ≡⟨ rw pow-suc (omega (arith, ap (bit_and (w / 2)) (half (2 ^ i)))) ⟩ bit_and (w / 2) (2 ^ i) * 2
    ≡⟨ rw pow-suc (rw (bit_and-one_shl i (w / 2)) (omega arith)) ⟩ bit i (w / 2) * 2 ^ suc i ∎
  where
    half : (p : ℕ) → p * 2 / 2 ≡ p
    half p = omega arith

pub two_pow_pos : (n : ℕ) → 0 < 2 ^ n
two_pow_pos zero = omega arith
two_pow_pos (suc n) = omega (arith, two_pow_pos n, pow-suc 2 n)

-- A remainder is what is left below the divisor.
pub mod_unique : (q r m : ℕ) → r < m → (q * m + r) % m ≡ r
mod_unique q r m h = mul-add-mod_self_right q m r ∙ mod-eq_of_lt h

mod-double : (w p : ℕ) → 0 < p → w % (p * 2) ≡ w / 2 % p * 2 + w % 2
mod-double w p h =
    w % (p * 2)
    ≡⟨ ap (λ k. k % (p * 2)) whole ⟩ (w / 2 / p * (p * 2) + (w / 2 % p * 2 + w % 2)) % (p * 2)
    ≡⟨ mod_unique (w / 2 / p) (w / 2 % p * 2 + w % 2) (p * 2) small ⟩ w / 2 % p * 2 + w % 2 ∎
  where
    small : w / 2 % p * 2 + w % 2 < p * 2
    small = omega (arith, mod-lt (w / 2) h)

    whole : w ≡ w / 2 / p * (p * 2) + (w / 2 % p * 2 + w % 2)
    whole = omega (arith, div-add-mod' (w / 2) p)

-- `w & (2 ^ n - 1)`, the remainder by a power of two.
pub bit_and-ones : (n w : ℕ) → bit_and w (2 ^ n - 1) ≡ w % 2 ^ n
bit_and-ones zero w = omega (arith, bit_and-zero w w (omega arith))
bit_and-ones (suc n) w = omega (
  arith,
  bit_and_digit w (2 ^ suc n - 1),
  bit_and-ones n (w / 2),
  ap (bit_and (w / 2)) half,
  pow-suc 2 n,
  remainder,
  two_pow_pos n,
)
  where
    half : (2 ^ suc n - 1) / 2 ≡ 2 ^ n - 1
    half = omega (arith, pow-suc 2 n)

    remainder : w % 2 ^ suc n ≡ w / 2 % 2 ^ n * 2 + w % 2
    remainder = ap (λ k. w % k) (pow-suc 2 n) ∙ mod-double w (2 ^ n) (two_pow_pos n)

-- `w & (b << n)`: the low n bits are dropped.
pub bit_and-shl : (n w b : ℕ) → bit_and w (b * 2 ^ n) ≡ bit_and (w / 2 ^ n) b * 2 ^ n
bit_and-shl zero w b = omega (arith, ap₂ bit_and one_b one_w)
  where
    one_w : b * 1 ≡ b
    one_w = omega arith

    one_b : w ≡ w / 1
    one_b = omega arith
bit_and-shl (suc n) w b =
    bit_and w (b * 2 ^ suc n)
    ≡⟨ bit_and_digit w (b * 2 ^ suc n) ⟩
      bit_and (w / 2) (b * 2 ^ suc n / 2) * 2 + min (w % 2) (b * 2 ^ suc n % 2)
    ≡⟨ omega (arith, ap (bit_and (w / 2)) half, doubled) ⟩ bit_and (w / 2) (b * 2 ^ n) * 2
    ≡⟨ ap (λ k. k * 2) (bit_and-shl n (w / 2) b) ⟩ bit_and (w / 2 / 2 ^ n) b * 2 ^ n * 2
    ≡⟨ rw (div-div-eq-div-mul, pow-suc') (scaled _) ⟩ bit_and (w / 2 ^ suc n) b * 2 ^ suc n ∎
  where
    doubled : b * 2 ^ suc n ≡ b * 2 ^ n * 2
    doubled = omega (arith, ap (λ (k : ℕ). b * k) (pow-suc 2 n))

    half : b * 2 ^ suc n / 2 ≡ b * 2 ^ n
    half = omega (arith, doubled)

    pow-suc' : 2 * 2 ^ n ≡ 2 ^ suc n
    pow-suc' = omega (arith, pow-suc 2 n)

    scaled : (c : ℕ) → c * 2 ^ n * 2 ≡ c * 2 ^ suc n
    scaled c = omega (arith, ap (λ (k : ℕ). c * k) (pow-suc 2 n))

-- `w | (1 << k)` sets bit k and leaves the others.
pub bit-set_bit : (i k w : ℕ) → bit i (bit_or w (2 ^ k)) ≡ (if i == k then 1 else bit i w)
bit-set_bit i k w =
    rw (bit-bit_or i w (2 ^ k), bit-one_shl i k)
      (elim (Bool-cases (i == k)) [
        | inl e ↦ rw e (omega (arith, bit_lt_two i w))
        | inr e ↦ rw e (omega arith)
      ])

-- `w & ~(1 << k)`, in n bits, clears bit k and leaves the others.
pub bit-clear_bit :
    (n i k w : ℕ)
    → i < n
    → k < n
    → bit i (bit_and w (2 ^ n - 1 - 2 ^ k)) ≡ (if i == k then 0 else bit i w)
bit-clear_bit n i k w hi hk =
    rw (bit-bit_and i w (2 ^ n - 1 - 2 ^ k), bit-complement n i (2 ^ k) hi below, bit-one_shl i k)
      (elim (Bool-cases (i == k)) [
        | inl e ↦ rw e (omega arith)
        | inr e ↦ rw e (omega (arith, bit_lt_two i w))
      ])
  where
    below : 2 ^ k < 2 ^ n
    below = omega (
      arith,
      pow-suc 2 k,
      two_pow_pos k,
      pow-le-pow_right {n = 2} (omega arith) {i = suc k} {j = n} hk,
    )

-- Numbers with the same bits are equal.
pub bit_ext : (n a b : ℕ) → a ≤ n → b ≤ n → ((i : ℕ) → bit i a ≡ bit i b) → a ≡ b
bit_ext zero a b h k same = omega arith
bit_ext (suc n) a b h k same =
    omega (arith, same 0, bit_ext n (a / 2) (b / 2) (omega arith) (omega arith) (λ i. same (suc i)))

pub bit_and-bit_or : (x y m : ℕ) → bit_and (bit_or x y) m ≡ bit_or (bit_and x m) (bit_and y m)
bit_and-bit_or x y m =
    bit_ext (bit_and (bit_or x y) m + bit_or (bit_and x m) (bit_and y m)) _ _ (omega arith)
      (omega arith)
      (λ i. omega (
        arith,
        bit-bit_and i (bit_or x y) m,
        bit-bit_or i x y,
        bit-bit_or i (bit_and x m) (bit_and y m),
        bit-bit_and i x m,
        bit-bit_and i y m,
      ))

pub bit_or-zero : (x : ℕ) → bit_or x 0 ≡ x
bit_or-zero x =
    bit_ext (bit_or x 0 + x) _ _ (omega arith) (omega arith)
      (λ i. omega (arith, bit-bit_or i x 0, bit-zero i, bit_lt_two i x))
