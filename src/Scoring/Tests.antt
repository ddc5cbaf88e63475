-- ===== src/Scoring/Tests.antt =====
-- The order of scores at two submissions on 8 observations.
use frontier_refactor_factor.Prelude.{◌≡◌, refl, true, arith, is_more}
use frontier_refactor_factor.Scoring.{compute}
use frontier_refactor_factor.Scoring.Laws.{Graded, score_of, scores_exact}

-- complete, and at half the speed of the reference
abbrev slow_and_right : Graded
slow_and_right = record { passed = 8; speedup = record { above = 1; below = 2 }; compliant = true }

-- nine times as fast, with one case missed
abbrev fast_and_wrong : Graded
fast_and_wrong = record { passed = 7; speedup = record { above = 9; below = 1 }; compliant = true }

scores_exact_example : is_more (score_of 8 slow_and_right) (score_of 8 fast_and_wrong) ≡ true
scores_exact_example =
    scores_exact 8 slow_and_right fast_and_wrong (omega arith) (omega arith) (omega arith)

scores : score_of 8 fast_and_wrong ≡ record { above = 7; below = 16 }
unfolding compute
scores = refl
