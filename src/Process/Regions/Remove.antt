-- ===== src/Process/Regions/Remove.antt =====
-- `process_remove_user_region_info` of kernel/process.c.
use kolibriarm.Base.{
  ℕ, zero, suc, ◌+◌, ◌-◌, ◌^◌, ◌<◌, ◌≤◌, ◌≡◌, ◌≢◌, refl, sym, subst₂, ◌∙◌, subst, ◌&&◌, List,
  Option, none, some, ltb, leb, if◌then◌else◌, get_or, set, length, length-set, arith, inl, inr,
  Option-cases, get_or-set_self, get_or-set_ne, first_index-some, first_index-none,
}
use kolibriarm.Process.{Process, Region, cleared_region, max_user_regions}
use kolibriarm.Process.Regions.{
  user_region_end, is_exact, find_region, shift_down, remove_found, remove_user_region_info,
}
use kolibriarm.Process.Regions.Inv.{
  IsValid, region, Apart, user_region_end-some, user_region_end-none,
}

length-shift_down : (n j : ℕ) (rs : List Region) → length (shift_down n j rs) ≡ length rs
unfolding shift_down
length-shift_down zero j rs = refl
length-shift_down (suc n) j rs =
    length-shift_down n (j + 1) (set rs (j - 1) (get_or rs j cleared_region))
    ∙ length-set rs (j - 1) _

-- The regions from index j on move down by one.
get_or-shift_down :
    (n j q : ℕ) (rs : List Region)
    → 0 < j
    → j + n ≤ length rs
    → get_or (shift_down n j rs) q cleared_region ≡ (
        if leb j (q + 1) && ltb (q + 1) (j + n)
        then get_or rs (q + 1) cleared_region
        else get_or rs q cleared_region)
unfolding shift_down
get_or-shift_down zero j q rs h k = ground arith
get_or-shift_down (suc n) j q rs h k =
    get_or-shift_down n (j + 1) q moved (omega arith)
      (omega (arith, length-set rs (j - 1) (get_or rs j cleared_region)))
    ∙ ground (
      arith,
      get_or-set_self rs (j - 1) (get_or rs j cleared_region) cleared_region (omega arith),
      get_or-set_ne rs (j - 1) q (get_or rs j cleared_region) cleared_region,
      get_or-set_ne rs (j - 1) (q + 1) (get_or rs j cleared_region) cleared_region,
    )
  where
    moved : List Region
    moved = set rs (j - 1) (get_or rs j cleared_region)

-- The region has been removed, the later ones have moved down, and the slot behind them is clear.
pub data RemoveOutcome (p : Process) (start size : ℕ) (r : Option Region × Process) : Type 0 where
  removed :
      (i : ℕ)
      → i < p.user_region_count
      → (region p i).start ≡ start
      → (region p i).end ≡ start + size
      → r.0 ≡ some (region p i)
      → r.1.user_region_count + 1 ≡ p.user_region_count
      → ((q : ℕ)
          → q < r.1.user_region_count
          → region r.1 q ≡ (if ltb q i then region p q else region p (q + 1)))
      → region r.1 r.1.user_region_count ≡ cleared_region
      → IsValid r.1
      → RemoveOutcome p start size r
  missing :
      r ≡ (none, p)
      → ((i : ℕ)
          → i < p.user_region_count
          → (region p i).start ≡ start
          → (region p i).end ≢ start + size)
      → RemoveOutcome p start size r

module _ (p : Process) (v : IsValid p) (i : ℕ) (h : i < p.user_region_count) where
  rest : Process
  rest = (remove_found p (some i)).1

  region-rest :
      (q : ℕ)
      → q + 1 < p.user_region_count
      → region rest q ≡ (if ltb q i then region p q else region p (q + 1))
  unfolding rest
  region-rest q k =
      get_or-set_ne _ (p.user_region_count - 1) q cleared_region cleared_region
        (λ e. absurd (omega arith))
      ∙ get_or-shift_down (p.user_region_count - (i + 1)) (i + 1) q p.user_regions (omega arith)
          (omega (arith, v))
      ∙ ground arith

  region-rest_last : region rest (p.user_region_count - 1) ≡ cleared_region
  unfolding rest
  region-rest_last =
      get_or-set_self _ (p.user_region_count - 1) cleared_region cleared_region
        (omega (arith, v, length-shift_down (p.user_region_count - (i + 1)) (i + 1) p.user_regions))

  -- Where a region of the rest stood before.
  source : ℕ → ℕ
  source q = if ltb q i then q else q + 1

  region-source : (q : ℕ) → q + 1 < p.user_region_count → region rest q ≡ region p (source q)
  unfolding source
  region-source q k = ground (arith, region-rest q k)

  source_mono :
      (q r : ℕ)
      → q < r
      → r + 1 < p.user_region_count
      → (source q < source r) × (source r < p.user_region_count)
  unfolding source
  source_mono q r k l = ground arith

  count-rest : rest.user_region_count + 1 ≡ p.user_region_count
  unfolding rest
  count-rest = omega arith

  length-rest : length rest.user_regions ≡ max_user_regions
  unfolding rest
  length-rest =
      length-set (shift_down (p.user_region_count - (i + 1)) (i + 1) p.user_regions)
        (p.user_region_count - 1) cleared_region
      ∙ length-shift_down (p.user_region_count - (i + 1)) (i + 1) p.user_regions
      ∙ v.eight

  rest-IsValid : IsValid rest
  rest-IsValid = record {
    eight = length-rest;
    counted = omega (arith, v, count-rest);
    sized = λ q k.
        subst (λ (x : Region). (x.start < x.end) × (x.end < 2 ^ 64))
          (sym (region-source q (omega (arith, count-rest))))
          (v.sized (source q) (unfold source in ground (arith, count-rest)));
    apart = λ q r k l.
        let (lower, in_range) = source_mono q r k (omega (arith, count-rest)) in
        subst₂ Apart (sym (region-source q (omega (arith, count-rest))))
          (sym (region-source r (omega (arith, count-rest))))
          (v.apart (source q) (source r) lower in_range);
  }

-- On a process with valid regions, for a size below 2 ^ 64, `process_remove_user_region_info` takes out
-- the region that is exactly the range: it returns the region, moves the later ones down by one, clears
-- the slot behind them and keeps the regions valid; or it fails and changes nothing, and no region is
-- exactly the range.
pub remove_user_region_info_lem :
    (p : Process) (start size : ℕ)
    → IsValid p
    → size < 2 ^ 64
    → RemoveOutcome p start size (remove_user_region_info p start size)
unfolding remove_user_region_info rest
remove_user_region_info_lem p start size v w = elim (Option-cases (user_region_end start size)) [
  | inl bad ↦ rw bad (
      missing refl (λ i h s e. elim (user_region_end-none start size bad) [
        | inl z ↦ omega (arith, v.sized i h)
        | inr o ↦ omega (arith, v.sized i h)
      ]))
  | inr (end, e) ↦
      let (pos, sum, fits) = user_region_end-some start size end w e in
      rw e (elim (Option-cases (find_region (is_exact start end) p)) [
        | inl nowhere ↦
            rw nowhere (missing refl (λ i h. differs i end h sum (omega (arith, v)) nowhere))
        | inr (i, hit) ↦
            let (below, _, test) =
              first_index-some (is_exact start end) p.user_region_count p.user_regions
                cleared_region i hit in
            rw hit (
              removed i below (ground arith) (ground arith) refl (count-rest p v i below)
                (λ q k. region-rest p v i below q (omega arith)) (region-rest_last p v i below)
                (rest-IsValid p v i below))
      ])
]
  where
    differs :
        (i end : ℕ)
        → i < p.user_region_count
        → end ≡ start + size
        → i < length p.user_regions
        → find_region (is_exact start end) p ≡ none
        → (region p i).start ≡ start
        → (region p i).end ≢ start + size
    differs i end h sum k nowhere s e = ground (
      arith,
      first_index-none (is_exact start end) p.user_region_count p.user_regions cleared_region i
          nowhere h k,
    )
