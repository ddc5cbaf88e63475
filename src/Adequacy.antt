-- ===== src/Adequacy.antt =====
-- frf/core/adequacy.py: reach, floor, and the verdict on them. A fraction is an exact quotient of
-- two counts, compared by cross products; the bounds are 25 / 100 and 75 / 100.
pub mod Repair
pub mod Laws
use frontier_refactor_factor.Prelude.{
  is_more, Fraction, ℕ, ◌*◌, String, Bool, true, false, not, ◌&&◌, ◌||◌, List, [], ◌∷◌, ltb, leb,
  ◌==◌, if◌then◌else◌, is_nil, map, take, str_eq, str, share, Arg, Message, lit, fmt, cat, join,
}
use frontier_refactor_factor.Exec.{Exec, pure, ◌>>=◌}

-- `(passed / total) if total else 0.0`
unfoldable pub fraction : ℕ → ℕ → Fraction
fraction passed total =
    if total == 0 then record { above = 0; below = 1 } else record { above = passed; below = total }

-- 0.25
abbrev pub min_reach : Fraction
min_reach = record { above = 1; below = 4 }

-- 0.75
abbrev pub max_floor : Fraction
max_floor = record { above = 3; below = 4 }

pub record Reach : Type 0 where
  pub reached : ℕ
  pub total : ℕ
  pub dark : List String
  pub backend : String

unfoldable pub reach_measured : Reach → Bool
reach_measured r = ltb 0 r.total

unfoldable pub reach_fraction : Reach → Fraction
unfolding fraction
reach_fraction r = fraction r.reached r.total

-- The coverage of a language that has no backend.
abbrev pub null_coverage : Reach
null_coverage = record { reached = 0; total = 0; dark = []; backend = "none" }

pub record Floor : Type 0 where
  pub fraction : Fraction
  pub worst : String
  pub attempts : List (String × Fraction)

-- `attempts[name] = share`
unfoldable pub put : String → Fraction → List (String × Fraction) → List (String × Fraction)
put n f [] = (n, f) ∷ []
put n f ((m, g) ∷ rest) =
    let below = put n f rest in if str_eq m n then (m, f) ∷ rest else (m, g) ∷ below

-- `max(attempts, key=...)`, which keeps the first of several.
unfoldable pub worst_of : String × Fraction → List (String × Fraction) → String × Fraction
worst_of best [] = best
worst_of best ((n, f) ∷ rest) =
    if is_more f best.1 then worst_of (n, f) rest else worst_of best rest

unfoldable pub floor_of : List (String × Fraction) → Floor
unfolding worst_of fraction
floor_of [] = record { fraction = fraction 0 0; worst = ""; attempts = [] }
floor_of (a ∷ attempts) =
    let (n, f) = worst_of a attempts in record { fraction = f; worst = n; attempts = a ∷ attempts }

module _ {W : Type 0} (score_trivial : String → Exec W (ℕ × ℕ)) where
  unfoldable pub score_all :
      List String → List (String × Fraction) → Exec W (List (String × Fraction))
  unfolding put fraction
  score_all [] attempts = pure attempts
  score_all (n ∷ names) attempts = do
    (passed, total) ← score_trivial n
    score_all names (put n (fraction passed total) attempts)

  unfoldable pub measure_floor : List String → Exec W Floor
  unfolding score_all floor_of
  measure_floor names = do attempts ← score_all names []; pure (floor_of attempts)

-- The class `Report` of this file.
pub record Assessment : Type 0 where
  pub reach : Reach
  pub floor : Floor
  pub note : Message

unfoldable pub reach_ok : Assessment → Bool
unfolding reach_measured reach_fraction
reach_ok a = not (reach_measured a.reach) || not (is_more min_reach (reach_fraction a.reach))

unfoldable pub floor_ok : Assessment → Bool
floor_ok a = not (is_more a.floor.fraction max_floor)

unfoldable pub assessment_ok : Assessment → Bool
unfolding reach_ok floor_ok
assessment_ok a = reach_ok a && floor_ok a

-- `100 * fraction` in a text
abbrev percent : Fraction → Arg
percent f = share (100 * f.above) f.below

abbrev regions : List String → Message
regions dark =
    if is_nil dark then lit "(the backend named no region)" else join ", " (map lit (take 5 dark))

unfoldable pub assess : Reach → Floor → Assessment
unfolding reach_measured reach_fraction
assess r f =
    if reach_measured r && is_more min_reach (reach_fraction r)
    then record {
      reach = r;
      floor = f;
      note =
          cat
            (fmt
              "the corpus executes %.0f%% of the subject, below the %.0f%% floor; least-reached: "
              (percent (reach_fraction r) ∷ percent min_reach ∷ []))
            (regions r.dark);
    }
    else if is_more f.fraction max_floor
    then record {
      reach = r;
      floor = f;
      note =
          fmt
            "a submission that does nothing already scores %.0f%% (%s); the corpus grades mostly constants"
            (percent f.fraction ∷ str f.worst ∷ []);
    }
    else if not (reach_measured r)
    then record {
      reach = r;
      floor = f;
      note =
          fmt
            "reaches the subject; line coverage was not measured (no backend for this language) and the floor is %.0f%%"
            (percent f.fraction ∷ []);
    }
    else record {
      reach = r;
      floor = f;
      note =
          fmt "reaches %.0f%% of the subject; a do-nothing submission scores %.0f%%"
            (percent (reach_fraction r) ∷ percent f.fraction ∷ []);
    }
