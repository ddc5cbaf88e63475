-- ===== src/Adequacy/Laws/Floor.antt =====
-- The floor: the worst of the trivial submissions decides.
use frontier_refactor_factor.Prelude.{
  is_more_trans, is_more_up, is_more, Fraction, ℕ, ◌≡◌, refl, ap, ◌∙◌, String, Bool, true, ◌||◌,
  List, [], ◌∷◌, arith, ltb, any, all, str_eq, str_eq_iff,
}
use frontier_refactor_factor.Exec.{Exec}
use frontier_refactor_factor.Exec.Ensures.{
  Ensures, Ensures-pure, Ensures-bind, Ensures-skip, Ensures-map,
}
use frontier_refactor_factor.Adequacy.{fraction, put, worst_of, floor_of, score_all, measure_floor}

abbrev is_share : String × Fraction → Bool
is_share a = ltb 0 a.1.below

-- Some attempt exceeds the bound.
abbrev pub is_exceeded : Fraction → List (String × Fraction) → Bool
is_exceeded m attempts = any (λ a. is_more a.1 m) attempts

abbrev pub is_tried : String → List (String × Fraction) → Bool
is_tried n attempts = any (λ a. str_eq a.0 n) attempts

worst_of_lem :
    (m : Fraction) (best : String × Fraction) (rest : List (String × Fraction))
    → is_share best ≡ true
    → all is_share rest ≡ true
    → is_more (worst_of best rest).1 m ≡ (is_more best.1 m || is_exceeded m rest)
unfolding worst_of
worst_of_lem m best [] o a = ground arith
worst_of_lem m (b, bf) ((n, f) ∷ rest) o a = ground (
  arith,
  worst_of_lem m (n, f) rest,
  worst_of_lem m (b, bf) rest,
  is_more_trans bf.above bf.below f.above f.below m.above m.below,
  is_more_up bf.above bf.below f.above f.below m.above m.below,
)

put-is_share :
    (n : String) (p t : ℕ) (xs : List (String × Fraction))
    → all is_share xs ≡ true
    → all is_share (put n (fraction p t) xs) ≡ true
unfolding put fraction
put-is_share n p t [] a = ground arith
put-is_share n p t ((m, g) ∷ xs) a = ground (arith, put-is_share n p t xs)

is_tried-put :
    (k n : String) (f : Fraction) (xs : List (String × Fraction))
    → is_tried k (put n f xs) ≡ (str_eq n k || is_tried k xs)
unfolding put
is_tried-put k n f [] = ground arith
is_tried-put k n f ((m, g) ∷ xs) = ground (arith, is_tried-put k n f xs, str_eq_iff m n)

module _ {W : Type 0} (score : String → Exec W (ℕ × ℕ)) (k : String) where
  abbrev HasTried : List String → List (String × Fraction) → List (String × Fraction) → Type 0
  HasTried names before after =
      (all is_share after ≡ true)
      × (is_tried k after ≡ (is_tried k before || any (λ n. str_eq n k) names))

  score_all-HasTried :
      (names : List String) (before : List (String × Fraction))
      → all is_share before ≡ true
      → Ensures (HasTried names before) (score_all score names before)
  unfolding score_all
  score_all-HasTried [] before a = Ensures-pure before (a, ground arith)
  score_all-HasTried (n ∷ names) before a = Ensures-skip (score n) _ λ s.
      Ensures-map
        (score_all-HasTried names (put n (fraction s.0 s.1) before)
          (put-is_share n s.0 s.1 before a))
        λ after h. (h.0, ground (arith, h.1, is_tried-put k n (fraction s.0 s.1) before))

  floor_of_lem :
      (m : Fraction) (attempts : List (String × Fraction))
      → all is_share attempts ≡ true
      → (is_more (floor_of attempts).fraction m ≡ is_exceeded m (floor_of attempts).attempts)
        × ((floor_of attempts).attempts ≡ attempts)
  unfolding floor_of fraction
  floor_of_lem m [] a = (ground arith, refl)
  floor_of_lem m (b ∷ rest) a = (ground (arith, worst_of_lem m b rest), refl)

  -- The floor of a corpus is above a bound exactly when one of the attempts is, for any bound;
  -- and the attempts are those at the names that were given, whatever scoring them does.
  pub measure_floor_lem :
      (names : List String) (m : Fraction)
      → Ensures
          (λ f.
            (is_more f.fraction m ≡ is_exceeded m f.attempts)
            × (is_tried k f.attempts ≡ any (λ n. str_eq n k) names))
          (measure_floor score names)
  unfolding measure_floor
  measure_floor_lem names m =
      Ensures-bind (score_all score names []) _ (score_all-HasTried names [] refl) λ attempts h.
        let (worst, same) = floor_of_lem m attempts h.0 in
        Ensures-pure (floor_of attempts) (worst, ap (is_tried k) same ∙ h.1)
