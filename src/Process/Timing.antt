-- ===== src/Process/Timing.antt =====
-- `_pick_timed` of frf/observe/process/stages.py: which scenarios are held out of grading to be
-- timed.
use Prim.Native.String.{compare}
use text.Mathlib.Text.{is_le}
use frontier_refactor_factor.Prelude.{
  ℕ, zero, suc, ◌+◌, ◌-◌, String, Bool, not, ◌&&◌, ◌||◌, none, some, List, [], ◌∷◌, ◌++◌,
  if◌then◌else◌, ◌==◌, ltb, length, is_nil, select, count, has, find, eq_string, str_eq,
}

pub record Feature : Type 0 where
  pub family : String
  pub input_key : String
  pub input_bytes : ℕ

-- `features.get(pid, {'family': 'unknown', 'input_key': pid, 'input_bytes': 0})`
abbrev pub feature_of : List (String × Feature) → String → Feature
feature_of features pid = elim (find pid features) [
  | some f ↦ f
  | none ↦ record { family = "unknown"; input_key = pid; input_bytes = 0 }
]

-- One place of the comparison of two tuples, and what decides if they are equal there.
abbrev pub then_less : ℕ → ℕ → Bool → Bool
then_less m n rest = ltb m n || (m == n && rest)

abbrev pub text_less : String → String → Bool
text_less s t = not (is_le (compare t s))

abbrev pub bit : Bool → ℕ
bit b = if b then 1 else 0

pub record Picked : Type 0 where
  pub selected : List String
  pub families : List String
  pub inputs : List String
  pub remaining : String → ℕ

module _ (features : List (String × Feature)) where
  abbrev pub family_of : String → String
  family_of pid = (feature_of features pid).family

  abbrev pub fresh_input : Picked → String → ℕ
  fresh_input s pid = bit (not (has s.inputs (feature_of features pid).input_key))

  abbrev pub fresh_family : Picked → String → ℕ
  fresh_family s pid = bit (not (has s.families (family_of pid)))

  -- `priority(p) < priority(q)`
  unfoldable pub priority_less : Picked → String → String → Bool
  priority_less s p q =
      then_less (fresh_input s p + fresh_family s p) (fresh_input s q + fresh_family s q) (
        then_less (fresh_input s p) (fresh_input s q) (
          then_less (fresh_family s p) (fresh_family s q) (
            then_less (feature_of features p).input_bytes (feature_of features q).input_bytes
              (text_less p q))))

  -- `max(p :: candidates, key=priority)`: the first of the greatest
  unfoldable pub best : Picked → String → List String → String
  unfolding priority_less
  best s p [] = p
  best s p (q ∷ candidates) = best s (if priority_less s p q then q else p) candidates

  unfoldable pub take_scenario : Picked → String → Picked
  take_scenario s pid = record {
    selected = s.selected ++ pid ∷ [];
    families = family_of pid ∷ s.families;
    inputs = (feature_of features pid).input_key ∷ s.inputs;
    remaining = λ f. if str_eq f (family_of pid) then s.remaining f - 1 else s.remaining f;
  }

  abbrev pub candidates : List String → Picked → List String
  candidates working s =
      select (λ p. not (has s.selected p) && ltb 1 (s.remaining (family_of p))) working

  -- The loop, with as many turns left as there are scenarios to select.
  unfoldable pub pick_loop : List String → ℕ → Picked → Picked
  unfolding best take_scenario
  pick_loop working zero s = s
  pick_loop working (suc n) s = elim (candidates working s) [
    | [] ↦ s
    | p ∷ ps ↦ pick_loop working n (take_scenario s (best s p ps))
  ]

  abbrev pub start_picking : List String → Picked
  start_picking working = record {
    selected = [];
    families = [];
    inputs = [];
    remaining = λ f. count (λ p. str_eq (family_of p) f) working;
  }

  abbrev pub min : ℕ → ℕ → ℕ
  min m n = if ltb n m then n else m

  -- `_pick_timed`
  unfoldable pub pick_timed : List String → ℕ → List String → List String
  unfolding pick_loop
  pick_timed probe_ids n worked =
      let working = select (λ pid. has worked pid) probe_ids in
      let available = length working - 1 in
      if is_nil worked || n == 0
      then []
      else if available == 0
      then []
      else (pick_loop working (min n available) (start_picking working)).selected
