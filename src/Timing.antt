-- ===== src/Timing.antt =====
-- frf/core/timing.py: how much faster a candidate is than the reference, over pairs of costs on the
-- same inputs. A cost is an exact fraction; the pseudorandom choices of the bootstrap, which are the
-- same at each call on as many ratios, are an argument, as is the number of its draws.
pub mod Laws
pub mod Measure
use frontier_refactor_factor.Prelude.{
  ℕ, zero, suc, ◌+◌, ◌-◌, ◌*◌, ◌/◌, ◌%◌, String, Bool, true, false, not, ◌&&◌, ◌||◌, Option, none,
  some, List, [], ◌∷◌, ◌++◌, map, if◌then◌else◌, ltb, ◌==◌, length, get_elem?, set, is_nil,
  Fraction, is_more, Message, lit, fmt, num, str,
}
use frontier_refactor_factor.Exec.{Result, ok, err, error, value_error}

abbrev pub zero_ratio : Fraction
zero_ratio = record { above = 0; below = 1 }

abbrev pub one : Fraction
one = record { above = 1; below = 1 }

-- `1.0 / r`
abbrev pub reciprocal : Fraction → Fraction
reciprocal r = record { above = r.below; below = r.above }

-- `a / b`
abbrev pub quotient : Fraction → Fraction → Fraction
quotient a b = record { above = a.above * b.below; below = a.below * b.above }

-- `(a + b) / 2`
abbrev pub mean : Fraction → Fraction → Fraction
mean a b = record { above = a.above * b.below + b.above * a.below; below = 2 * (a.below * b.below) }

abbrev pub larger : Fraction → Fraction → Fraction
larger a b = if is_more b a then b else a

unfoldable pub insert_ratio : Fraction → List Fraction → List Fraction
insert_ratio r [] = r ∷ []
insert_ratio r (s ∷ rs) =
    let rest = insert_ratio r rs in if is_more r s then s ∷ rest else r ∷ s ∷ rs

unfoldable pub sort_ratios : List Fraction → List Fraction
unfolding insert_ratio
sort_ratios [] = []
sort_ratios (r ∷ rs) = insert_ratio r (sort_ratios rs)

abbrev pub or_zero : Option Fraction → Fraction
or_zero none = zero_ratio
or_zero (some r) = r

-- `statistics.median`, of at least one ratio
unfoldable pub median : List Fraction → Fraction
unfolding sort_ratios
median rs =
    let sorted = sort_ratios rs in
    let n = length rs in
    if n % 2 == 1
    then or_zero (get_elem? sorted (n / 2))
    else mean (or_zero (get_elem? sorted (n / 2 - 1))) (or_zero (get_elem? sorted (n / 2)))

-- What a stopwatch answers: a finite and positive cost, or another float.
pub data Cost : Type 0 where
  costs : Fraction → Cost
  no_cost : Cost

-- `math.isfinite(t) and t > 0`
abbrev pub is_positive : Fraction → Bool
is_positive r = ltb 0 r.above && ltb 0 r.below

-- What a shape was measured at; the samples themselves are left out.
pub record Measured : Type 0 where
  pub lower : Fraction
  pub upper : Fraction
  pub noise_floor : Fraction
  pub speedup : Fraction
  pub middle : Fraction

-- `evidence` holds the shapes that were measured to their end, and a note leaves out the figures and
-- the exception's text.
pub record SpeedResult : Type 0 where
  pub speedup : Fraction
  pub median : Fraction
  pub noise_floor : Fraction
  pub evidence : List (String × Measured)
  pub within_noise : Bool
  pub measured : Option Fraction
  pub usable : Bool
  pub note : Message

abbrev pub no_result : List (String × Measured) → Message → SpeedResult
no_result evidence note = record {
  speedup = zero_ratio;
  median = zero_ratio;
  noise_floor = zero_ratio;
  evidence = evidence;
  within_noise = false;
  measured = none;
  usable = false;
  note = note;
}

abbrev pub bad_measurement : {A : Type 0} → Result A
bad_measurement = err (
    error (record {
      class = value_error "ValueError";
      text = "measurement must be finite and strictly positive";
    }))

abbrev pub ratio_of : Cost → Cost → Result Fraction
ratio_of (costs r) (costs c) =
    if is_positive r && is_positive c then ok (quotient r c) else bad_measurement
ratio_of _ _ = bad_measurement

-- `lower if lower > noise else (upper if upper < 1.0 / noise else 1.0)`
abbrev pub adjust : Fraction → Fraction → Fraction → Fraction
adjust lower upper noise =
    if is_more lower noise then lower else if is_more (reciprocal noise) upper then upper else one

-- `min(per_shape, key=...)`: the first of the smallest
abbrev pub worst_of : String × Measured → List (String × Measured) → String × Measured
worst_of w [] = w
worst_of w (s ∷ shapes) = worst_of (if is_more w.1.speedup s.1.speedup then s else w) shapes

abbrev pub largest : Fraction → List Fraction → Fraction
largest r [] = r
largest r (s ∷ rs) = largest (larger r s) rs

-- `max(floors) if floors else 1.0`
abbrev pub highest : List Fraction → Fraction
highest [] = one
highest (r ∷ rs) = largest r rs

-- `speedup == 1.0`
abbrev pub is_one : Fraction → Bool
is_one r = r.above == r.below

-- What follows the loop over the shapes.
unfoldable pub conclude : List (String × Measured) → List Fraction → SpeedResult
unfolding median
conclude [] floors = no_result [] (lit "no shape was given to time")
conclude (s ∷ shapes) floors =
    let (name, m) = worst_of s shapes in
    let noise = highest floors in
    let middle = median (map (λ (n, x). x.middle) (s ∷ shapes)) in
    if is_one m.speedup
    then record {
      speedup = one;
      median = middle;
      noise_floor = noise;
      evidence = s ∷ shapes;
      within_noise = true;
      measured = some m.middle;
      usable = true;
      note =
          fmt "the measured gain on the worst shape, %r, does not clear this machine's own noise"
            (str name ∷ []);
    }
    else record {
      speedup = m.speedup;
      median = middle;
      noise_floor = noise;
      evidence = s ∷ shapes;
      within_noise = false;
      measured = none;
      usable = true;
      note = fmt "worst shape %r of %d" (str name ∷ num (length (s ∷ shapes)) ∷ []);
    }

-- The draw `i` of as many ratios as there are; `choose i j n` is below `n`.
module _ (choose : ℕ → ℕ → ℕ → ℕ) (draws : ℕ) where
  abbrev pub resample : ℕ → ℕ → List Fraction → ℕ → List Fraction
  resample i n ratios zero = []
  resample i n ratios (suc j) = or_zero (get_elem? ratios (choose i j n)) ∷ resample i n ratios j

  abbrev pub medians : List Fraction → ℕ → List Fraction
  medians ratios zero = []
  medians ratios (suc i) =
      median (resample i (length ratios) ratios (length ratios)) ∷ medians ratios i

  -- `_bootstrap_lower_bound`: of 2000 draws, the one at `int(0.05 * draws)` in order
  unfoldable pub bootstrap_lower_bound : List Fraction → Fraction
  unfolding median sort_ratios
  bootstrap_lower_bound [] = zero_ratio
  bootstrap_lower_bound (r ∷ []) = r
  bootstrap_lower_bound (r ∷ s ∷ rs) =
      or_zero (get_elem? (sort_ratios (medians (r ∷ s ∷ rs) draws)) (draws / 20))

  abbrev pub upper_bound : List Fraction → Fraction
  upper_bound ratios = reciprocal (bootstrap_lower_bound (map reciprocal ratios))

  unfoldable pub conclude_shape : List Fraction → List Fraction → Measured
  unfolding bootstrap_lower_bound median
  conclude_shape ratios self_ratios =
      let lower = bootstrap_lower_bound ratios in
      let upper = upper_bound ratios in
      let noise =
        larger (larger one (upper_bound self_ratios))
          (reciprocal (bootstrap_lower_bound self_ratios)) in
      record {
        lower = lower;
        upper = upper;
        noise_floor = noise;
        speedup = adjust lower upper noise;
        middle = median ratios;
      }
