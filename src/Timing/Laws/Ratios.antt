-- ===== src/Timing/Laws/Ratios.antt =====
-- The ratios that are timed are positive, and as many as the samples.
use frontier_refactor_factor.Prelude.{
  eq_string, ℕ, zero, suc, ◌+◌, ◌%◌, ◌≡◌, refl, ap, subst, String, Bool, true, false, ◌&&◌, [], ◌∷◌,
  if◌then◌else◌, ◌==◌, arith, length, Fraction, All,
}
use frontier_refactor_factor.Exec.{Exec, ok, err, Raised}
use frontier_refactor_factor.Exec.Ensures.{
  Ensures, Ensures-pure, Ensures-lift, Ensures-bind, Ensures-skip, Ensures-if, ok-injective,
}
use frontier_refactor_factor.Timing.{Cost, costs, no_cost, ratio_of, is_positive, quotient}
use frontier_refactor_factor.Timing.Measure.{time_pair, paired_ratios}
use frontier_refactor_factor.Timing.Laws.Positive.{Positive, quotient-Positive}

is_positive-Positive : (r : Fraction) → is_positive r ≡ true → Positive r
is_positive-Positive r h = record { above_pos = ground (arith, h); below_pos = ground (arith, h) }

both-Positive :
    (b : Bool) (r a : Fraction) (x : Raised)
    → (b ≡ true → Positive r)
    → (if b then ok r else err x) ≡ ok a
    → Positive a
both-Positive true r a x h e = subst Positive (ok-injective e) (h refl)
both-Positive false r a x h e = cc

ratio_of-Positive : (r c : Cost) (a : Fraction) → ratio_of r c ≡ ok a → Positive a
ratio_of-Positive (costs r) (costs c) a e =
    both-Positive (is_positive r && is_positive c) (quotient r c) a _
      (λ h.
        quotient-Positive r c (is_positive-Positive r (ground (arith, h)))
          (is_positive-Positive c (ground (arith, h))))
      e
ratio_of-Positive (costs r) no_cost a e = cc
ratio_of-Positive no_cost c a e = cc

module _ {W Probe : Type 0} where
  time_pair-Positive :
      (reference candidate : Probe → Exec W Cost) (i : ℕ) (probe : Probe)
      → Ensures Positive (time_pair reference candidate i probe)
  time_pair-Positive reference candidate i probe =
      Ensures-if (i % 2 == 0)
        (λ _. Ensures-skip (reference probe) _ λ r.
          Ensures-skip (candidate probe) _ λ c. Ensures-lift (ratio_of r c) (ratio_of-Positive r c))
        (λ _. Ensures-skip (candidate probe) _ λ c.
          Ensures-skip (reference probe) _ λ r. Ensures-lift (ratio_of r c) (ratio_of-Positive r c))

module _ {W Probe : Type 0} (draw_probe : String → ℕ → Exec W Probe) where
  pub paired_ratios-Positive :
      (reference candidate : Probe → Exec W Cost) (shape : String) (offset i n : ℕ)
      → Ensures
          (λ rs. (length rs ≡ n) × All Positive rs)
          (paired_ratios draw_probe reference candidate shape offset i n)
  unfolding paired_ratios
  paired_ratios-Positive reference candidate shape offset i zero = Ensures-pure [] (refl, tt)
  paired_ratios-Positive reference candidate shape offset i (suc n) =
      Ensures-skip (draw_probe shape (i + offset)) _ λ probe.
        Ensures-bind (time_pair reference candidate i probe) _
          (time_pair-Positive reference candidate i probe)
          λ ratio p.
            Ensures-bind (paired_ratios draw_probe reference candidate shape offset (suc i) n) _
              (paired_ratios-Positive reference candidate shape offset (suc i) n)
              λ rest q. Ensures-pure (ratio ∷ rest) (ap suc q.0, (p, q.1))
