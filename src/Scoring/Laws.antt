-- ===== src/Scoring/Laws.antt =====
-- How scores compare.
use frontier_refactor_factor.Prelude.{
  ℕ, ◌+◌, ◌*◌, ◌<◌, ◌≡◌, Bool, true, false, not, ◌&&◌, ◌||◌, arith, ltb, leb, if◌then◌else◌,
  Fraction, is_more, mul_mono,
}
use frontier_refactor_factor.Scoring.{compute, correctness_of}

-- One submission, graded on `total` observations.
pub record Graded : Type 0 where
  pub passed : ℕ
  pub speedup : Fraction
  pub compliant : Bool

abbrev pub is_complete : ℕ → Graded → Bool
is_complete total g = g.compliant && leb total g.passed

abbrev pub score_of : ℕ → Graded → Fraction
score_of total g = (compute g.passed total g.speedup g.compliant).reward

halves : (p q t : ℕ) → 0 < t → ltb (q * (2 * t)) (p * (2 * t)) ≡ ltb q p
halves p q t o = ground (arith, mul_mono (2 * t) (q + 1) p, mul_mono (2 * t) p q)

both_complete :
    (ga gb ha hb : ℕ) → ltb ((hb + ha) * (2 * gb)) ((gb + ga) * (2 * hb)) ≡ ltb (ha * gb) (ga * hb)
both_complete ga gb ha hb = grind arith

complete-beats : (ga gb p t : ℕ) → p < t → 0 < gb → ltb (p * (2 * gb)) ((gb + ga) * (2 * t)) ≡ true
complete-beats ga gb p t h o =
    let m = mul_mono (2 * gb) (p + 1) t (omega (arith, h)) in
    let n = mul_mono (2 * t) gb (gb + ga) (omega arith) in ground (arith, m, n)

incomplete-loses : (ha hb p t : ℕ) → p < t → ltb ((hb + ha) * (2 * t)) (p * (2 * hb)) ≡ false
incomplete-loses ha hb p t h =
    let m = mul_mono (2 * hb) p t (omega (arith, h)) in
    let n = mul_mono (2 * t) hb (hb + ha) (omega arith) in ground (arith, m, n)

-- Of two submissions on the same observations, the one scores more than the other exactly when: both
-- are complete, and it is faster; or it alone is complete, whatever the speed of the other; or
-- neither is, it is compliant, and it passes more, or passes something where the other is not
-- compliant.
pub scores_exact :
    (total : ℕ) (g h : Graded)
    → 0 < total
    → 0 < g.speedup.below
    → 0 < h.speedup.below
    → is_more (score_of total g) (score_of total h) ≡ (
        if is_complete total g
        then not (is_complete total h) || is_more g.speedup h.speedup
        else not (is_complete total h)
          && (g.compliant && ltb (if h.compliant then h.passed else 0) g.passed))
unfolding compute correctness_of
scores_exact total g h t o p = ground (
  arith,
  t,
  o,
  p,
  halves g.passed h.passed total t,
  both_complete g.speedup.above g.speedup.below h.speedup.above h.speedup.below,
  complete-beats g.speedup.above g.speedup.below h.passed total,
  incomplete-loses h.speedup.above h.speedup.below g.passed total,
)
