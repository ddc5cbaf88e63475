-- ===== src/Timing/Laws/Positive.antt =====
-- Ratios of positive costs, and what the bootstrap makes of them, are positive.
use frontier_refactor_factor.Prelude.{
  ℕ, zero, suc, ◌-◌, ◌*◌, ◌/◌, ◌%◌, ◌≡◌, ◌<◌, refl, ap, ◌∙◌, Bool, true, false, List, [], ◌∷◌, map,
  if◌then◌else◌, ◌==◌, arith, length, length-map, get_elem?, Fraction, is_more, mul_mono, All,
}
use frontier_refactor_factor.Timing.{
  reciprocal, quotient, mean, insert_ratio, sort_ratios, or_zero, median, resample, medians,
  bootstrap_lower_bound, upper_bound,
}

pub record Positive (r : Fraction) : Type 0 where
  pub above_pos : 0 < r.above
  pub below_pos : 0 < r.below

mul_pos : (m n : ℕ) → 0 < m → 0 < n → 0 < m * n
mul_pos m n h k = let p = mul_mono m 1 n k in omega (arith, p, h)

pub reciprocal-Positive : (r : Fraction) → Positive r → Positive (reciprocal r)
reciprocal-Positive r p = record { above_pos = p.below_pos; below_pos = p.above_pos }

pub quotient-Positive : (a b : Fraction) → Positive a → Positive b → Positive (quotient a b)
quotient-Positive a b p q = record {
  above_pos = mul_pos a.above b.below p.above_pos q.below_pos;
  below_pos = mul_pos a.below b.above p.below_pos q.above_pos;
}

mean-Positive : (a b : Fraction) → Positive a → Positive b → Positive (mean a b)
mean-Positive a b p q =
    let left = mul_pos a.above b.below p.above_pos q.below_pos in
    let below = mul_pos a.below b.below p.below_pos q.below_pos in
    record { above_pos = omega (arith, left); below_pos = omega (arith, below) }

insert-Positive :
    (r : Fraction) (rs : List Fraction)
    → Positive r
    → All Positive rs
    → All Positive (insert_ratio r rs)
unfolding insert_ratio
insert-Positive r [] p h = (p, tt)
insert-Positive r (s ∷ rs) p (h, hs) =
    elim (is_more r s) as (λ b. All Positive (if b then s ∷ insert_ratio r rs else r ∷ s ∷ rs)) [
      | true ↦ (h, insert-Positive r rs p hs)
      | false ↦ (p, (h, hs))
    ]

length-insert : (r : Fraction) (rs : List Fraction) → length (insert_ratio r rs) ≡ suc (length rs)
unfolding insert_ratio
length-insert r [] = refl
length-insert r (s ∷ rs) = ground (arith, length-insert r rs)

sort-Positive : (rs : List Fraction) → All Positive rs → All Positive (sort_ratios rs)
unfolding sort_ratios
sort-Positive [] h = tt
sort-Positive (r ∷ rs) (h, hs) = insert-Positive r (sort_ratios rs) h (sort-Positive rs hs)

length-sort : (rs : List Fraction) → length (sort_ratios rs) ≡ length rs
unfolding sort_ratios
length-sort [] = refl
length-sort (r ∷ rs) = length-insert r (sort_ratios rs) ∙ ap suc (length-sort rs)

at-Positive :
    (rs : List Fraction) (i : ℕ)
    → i < length rs
    → All Positive rs
    → Positive (or_zero (get_elem? rs i))
at-Positive [] i h a = elim h [ ]
at-Positive (r ∷ rs) zero h (p, ps) = p
at-Positive (r ∷ rs) (suc i) h (p, ps) = at-Positive rs i (omega (arith, h)) ps

Positive-if :
    (b : Bool) (r s : Fraction)
    → (b ≡ true → Positive r)
    → (b ≡ false → Positive s)
    → Positive (if b then r else s)
Positive-if true r s h k = h refl
Positive-if false r s h k = k refl

median-Positive : (rs : List Fraction) → 0 < length rs → All Positive rs → Positive (median rs)
unfolding median
median-Positive rs n h =
    let sorted = sort_ratios rs in
    let all = sort-Positive rs h in
    let size = length-sort rs in
    let middle = length rs / 2 in
    let upper = at-Positive sorted middle (omega (arith, size, n)) all in
    Positive-if (length rs % 2 == 1) _ _ (λ _. upper)
      λ e.
        mean-Positive (or_zero (get_elem? sorted (middle - 1))) (or_zero (get_elem? sorted middle))
          (at-Positive sorted (middle - 1) (omega (arith, size, n)) all) upper

map-Positive : (rs : List Fraction) → All Positive rs → All Positive (map reciprocal rs)
map-Positive [] h = tt
map-Positive (r ∷ rs) (h, hs) = (reciprocal-Positive r h, map-Positive rs hs)

module _ (choose : ℕ → ℕ → ℕ → ℕ) (draws : ℕ) (in_range : (i j n : ℕ) → 0 < n → choose i j n < n)
    (some_draws : 0 < draws) where
  resample-Positive :
      (i : ℕ) (rs : List Fraction) (j : ℕ)
      → 0 < length rs
      → All Positive rs
      → All Positive (resample choose draws i (length rs) rs j)
  resample-Positive i rs zero n h = tt
  resample-Positive i rs (suc j) n h = (
    at-Positive rs (choose i j (length rs)) (in_range i j (length rs) n) h,
    resample-Positive i rs j n h,
  )

  length-resample :
      (i n : ℕ) (rs : List Fraction) (j : ℕ) → length (resample choose draws i n rs j) ≡ j
  length-resample i n rs zero = refl
  length-resample i n rs (suc j) = ap suc (length-resample i n rs j)

  medians-Positive :
      (rs : List Fraction) (i : ℕ)
      → 0 < length rs
      → All Positive rs
      → All Positive (medians choose draws rs i)
  medians-Positive rs zero n h = tt
  medians-Positive rs (suc i) n h =
      let size = length-resample i (length rs) rs (length rs) in
      (
        median-Positive (resample choose draws i (length rs) rs (length rs))
            (omega (arith, size, n)) (resample-Positive i rs (length rs) n h),
        medians-Positive rs i n h,
      )

  length-medians : (rs : List Fraction) (i : ℕ) → length (medians choose draws rs i) ≡ i
  length-medians rs zero = refl
  length-medians rs (suc i) = ap suc (length-medians rs i)

  pub bootstrap-Positive :
      (rs : List Fraction)
      → 0 < length rs
      → All Positive rs
      → Positive (bootstrap_lower_bound choose draws rs)
  unfolding bootstrap_lower_bound
  bootstrap-Positive [] n h = elim n [ ]
  bootstrap-Positive (r ∷ []) n (h, hs) = h
  bootstrap-Positive (r ∷ s ∷ rs) n h =
      let ms = medians choose draws (r ∷ s ∷ rs) draws in
      let size = length-sort ms ∙ length-medians (r ∷ s ∷ rs) draws in
      at-Positive (sort_ratios ms) (draws / 20) (omega (arith, size, some_draws))
        (sort-Positive ms (medians-Positive (r ∷ s ∷ rs) draws n h))

  pub upper-Positive :
      (rs : List Fraction)
      → 0 < length rs
      → All Positive rs
      → Positive (upper_bound choose draws rs)
  upper-Positive rs n h =
      let size = length-map reciprocal rs in
      reciprocal-Positive (bootstrap_lower_bound choose draws (map reciprocal rs))
        (bootstrap-Positive (map reciprocal rs) (omega (arith, size, n)) (map-Positive rs h))
