-- ===== src/Timing/Measure.antt =====
-- `measure` of frf/core/timing.py: pairs of costs, timed in alternating order, for every shape. The
-- stopwatches and the inputs act on the world `W`.
use frontier_refactor_factor.Prelude.{
  ℕ, zero, suc, ◌+◌, ◌%◌, String, Option, none, some, List, [], ◌∷◌, ◌++◌, if◌then◌else◌, ltb, ◌==◌,
  set, is_nil, Fraction, lit, fmt, str,
}
use frontier_refactor_factor.Exec.{
  Exec, Result, ok, err, refusal, error, value_error, is_exception, pure, lift, ◌>>=◌,
}
use frontier_refactor_factor.Timing.{
  Cost, ratio_of, Measured, SpeedResult, no_result, conclude_shape, conclude,
}

-- `except Exception`
abbrev pub caught : String → Result Measured → Result (Option Measured)
caught shape (ok m) = ok (some m)
caught shape (err (refusal s)) = ok none
caught shape (err (error e)) = if is_exception e.class then ok none else err (error e)

module _ {W Probe : Type 0} where
  -- Whoever is timed first alternates.
  abbrev pub time_pair : (Probe → Exec W Cost) → (Probe → Exec W Cost) → ℕ → Probe → Exec W Fraction
  time_pair reference candidate i probe =
      if i % 2 == 0
      then (do r ← reference probe; c ← candidate probe; lift (ratio_of r c))
      else (do c ← candidate probe; r ← reference probe; lift (ratio_of r c))

module _ {W Probe : Type 0} (draw_probe : String → ℕ → Exec W Probe) where
  -- `_paired_ratios`, from the sample `i` on; the first probe is drawn as number `offset`
  unfoldable pub paired_ratios :
      (Probe → Exec W Cost) → (Probe → Exec W Cost) → String → ℕ → ℕ → ℕ → Exec W (List Fraction)
  paired_ratios reference candidate shape offset i zero = pure []
  paired_ratios reference candidate shape offset i (suc n) = do
    probe ← draw_probe shape (i + offset)
    ratio ← time_pair reference candidate i probe
    rest ← paired_ratios reference candidate shape offset (suc i) n
    pure (ratio ∷ rest)

module _ (choose : ℕ → ℕ → ℕ → ℕ) (draws : ℕ) {W Probe : Type 0}
    (draw_probe : String → ℕ → Exec W Probe) where
  unfoldable pub measure_shape :
      (Probe → Exec W Cost) → (Probe → Exec W Cost) → ℕ → ℕ → String → Exec W Measured
  unfolding paired_ratios conclude_shape
  measure_shape reference candidate samples warmups shape = do
    warm ← paired_ratios draw_probe reference candidate shape 0 0 warmups
    ratios ← paired_ratios draw_probe reference candidate shape warmups 0 samples
    self_ratios ← paired_ratios draw_probe reference reference shape warmups 0 samples
    pure (conclude_shape choose draws ratios self_ratios)

  abbrev pub try_shape :
      (Probe → Exec W Cost) → (Probe → Exec W Cost) → ℕ → ℕ → String → Exec W (Option Measured)
  try_shape reference candidate samples warmups shape w =
      let (r, w') = measure_shape reference candidate samples warmups shape w in
      (caught shape r, w')

  -- The loop over the shapes, with what was measured of those before.
  unfoldable pub measure_shapes :
      (Probe → Exec W Cost)
      → (Probe → Exec W Cost)
      → ℕ
      → ℕ
      → List String
      → List (String × Measured)
      → List Fraction
      → Exec W SpeedResult
  unfolding measure_shape conclude
  measure_shapes reference candidate samples warmups [] done floors = pure (conclude done floors)
  measure_shapes reference candidate samples warmups (shape ∷ shapes) done floors = do
    end ← try_shape reference candidate samples warmups shape
    elim end [
      | none ↦ pure (no_result done (fmt "timing failed on %r" (str shape ∷ [])))
      | some m ↦
          measure_shapes reference candidate samples warmups shapes (set shape m done)
            (floors ++ m.noise_floor ∷ [])
    ]

  unfoldable pub measure :
      (Probe → Exec W Cost) → (Probe → Exec W Cost) → List String → ℕ → ℕ → Exec W SpeedResult
  unfolding measure_shapes
  measure reference candidate shapes samples warmups =
      if is_nil shapes
      then pure (no_result [] (lit "no shape was given to time"))
      else if ltb samples 2
      then lift (
          err (
            error (record {
              class = value_error "ValueError";
              text = "at least two sample pairs and non-negative warmups are required";
            })))
      else measure_shapes reference candidate samples warmups shapes [] []
