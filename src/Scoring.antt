-- ===== src/Scoring.antt =====
-- frf/core/scoring.py: graded observations and a speedup become a score. The credit for correctness
-- is a half, and a score is an exact quotient; the source computes it in floating point.
pub mod Laws
mod Tests
use frontier_refactor_factor.Prelude.{
  ℕ, ◌+◌, ◌*◌, Bool, true, false, not, ◌||◌, ltb, ◌==◌, if◌then◌else◌, Fraction, num, share,
  Message, lit, fmt, List, [], ◌∷◌,
}

pub record Reward : Type 0 where
  pub reward : Fraction
  pub passed : ℕ
  pub total : ℕ
  pub correct : Bool
  pub correctness : Fraction
  pub speedup : Fraction
  pub note : Message

abbrev pub nothing : Fraction
nothing = record { above = 0; below = 1 }

-- `passed / total if total > 0 else 0.0`
unfoldable pub correctness_of : ℕ → ℕ → Fraction
correctness_of passed total =
    if ltb 0 total then record { above = passed; below = total } else nothing

-- `CORRECTNESS_CREDIT * f`
abbrev pub credit : Fraction → Fraction
credit f = record { above = f.above; below = 2 * f.below }

-- `CORRECTNESS_CREDIT + CORRECTNESS_CREDIT * f`
abbrev pub credit_and : Fraction → Fraction
credit_and f = record { above = f.below + f.above; below = 2 * f.below }

unfoldable pub compute : ℕ → ℕ → Fraction → Bool → Reward
unfolding correctness_of
compute passed total speedup compliant =
    if not compliant
    then record {
      reward = nothing;
      passed = passed;
      total = total;
      correct = false;
      correctness = nothing;
      speedup = nothing;
      note = lit "compliance check failed; neither behaviour nor speed was scored";
    }
    else if (total == 0) || ltb passed total
    then record {
      reward = credit (correctness_of passed total);
      passed = passed;
      total = total;
      correct = false;
      correctness = correctness_of passed total;
      speedup = nothing;
      note =
          fmt "behaviour is incomplete (%d/%d); speed is not scored until it is complete"
            (num passed ∷ num total ∷ []);
    }
    else record {
      reward = credit_and speedup;
      passed = passed;
      total = total;
      correct = true;
      correctness = record { above = 1; below = 1 };
      speedup = speedup;
      note =
          fmt "correct; scored on measured speedup (%.4gx)"
            (share speedup.above speedup.below ∷ []);
    }
