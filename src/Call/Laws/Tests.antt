-- ===== src/Call/Laws/Tests.antt =====
-- The theorems on the seam of calls at concrete inputs. The hash is the text itself, and a value is
-- dumped as the text that it is.
use frontier_refactor_factor.Prelude.{
  inl, ℕ, ◌≡◌, refl, String, ◌<>◌, Bool, true, false, List, [], ◌∷◌, ltb, ◌==◌, ◌&&◌, none, is_nil,
  length, lit, if◌then◌else◌,
}
use frontier_refactor_factor.Exec.{Exec, Result, pure, ok, err}
use frontier_refactor_factor.Exec.Ensures.{Ensures}
use frontier_refactor_factor.Evidence.{verdict_ok, battery_ok}
use frontier_refactor_factor.Evidence.Checks.{ceiling, floor}
use frontier_refactor_factor.Compare.{Value, text}
use frontier_refactor_factor.Call.{Observation, Expectation}
use frontier_refactor_factor.Call.Session.{Reply, call_many}
use frontier_refactor_factor.Call.Corpus.{Corpus, conclude, number_inputs, refusals_corpus}
use frontier_refactor_factor.Call.Freeze.{Subject, Observer, freeze, run_all, unobserved}
use frontier_refactor_factor.Call.Battery.{
  Arguments, Attempt, answers, score_reference, score_trivial, perturb, battery, trivial,
}
use frontier_refactor_factor.Call.Laws.Sessions.{after, identities, call_many-answers}
use frontier_refactor_factor.Call.Laws.Names.{input_ids}
use frontier_refactor_factor.Call.Laws.Runs.{SoundOf, freeze-SoundOf}
use frontier_refactor_factor.Call.Laws.Battery.{call_battery_exact}
use frontier_refactor_factor.Call.Laws.Ceiling.{ceiling-Answers}

abbrev plain : String → String
plain s = s

abbrev dumps : Bool → Value → String → String
dumps b (text s) e = s <> e
dumps b v e = e

abbrev answer : String → Observation
answer s = record { ok = true; value = text s; error = "" }

-- The world is the unit type: nothing outside changes.
abbrev on_time : Exec (Unit {0}) Bool
on_time = pure false

abbrev silent : List (ℕ × String) → Exec (Unit {0}) (List (ℕ × Reply))
silent requests = pure []

call_many-answers_example :
    Ensures (λ xs. identities xs ≡ after 7 2) (call_many on_time silent 7 ("a" ∷ "b" ∷ []))
call_many-answers_example = call_many-answers on_time silent 7 ("a" ∷ "b" ∷ [])

abbrev echo : Subject (Unit {0}) String
echo = record { call_many = none; call = λ s. pure (answer s) }

abbrev observer : Observer (Unit {0}) String
observer = record { start = pure echo; stop = λ w. w }

abbrev five : List String
five = "a" ∷ "b" ∷ "c" ∷ "d" ∷ "e" ∷ []

abbrev got : Result (Corpus String) → Corpus String
got (ok c) = c
got (err x) = refusals_corpus []

abbrev frozen : Corpus String
frozen = got (freeze on_time observer plain dumps none five 2 3000 tt).0

freeze-SoundOf_example :
    let inputs = number_inputs 0 five in
    SoundOf on_time observer plain dumps
      (input_ids inputs)
      (run_all on_time observer 2 inputs (unobserved on_time observer inputs) tt).0
      frozen
unfolding freeze
freeze-SoundOf_example =
    freeze-SoundOf on_time observer plain dumps none five 2 3000 tt frozen refl refl

abbrev is_usable : Result (Corpus String) → Bool
is_usable (ok c) = c.usable && (length c.timed == 3 && length c.expectations == 2)
is_usable (err x) = false

-- There is such a corpus: of five probes, three are timed.
five_usable : is_usable (freeze on_time observer plain dumps none five 2 3000 tt).0 ≡ true
unfolding freeze
five_usable = refl

abbrev expectation : String → String → Expectation
expectation pid d = record {
  probe_id = pid;
  digest = "sha256:" <> d;
  runs = 2;
  dropped = false;
  drop_reason = lit "";
}

abbrev corpus : Corpus Arguments
corpus = record {
  expectations = expectation "p" "a" ∷ expectation "q" "b" ∷ [];
  inputs = ("p", []) ∷ ("q", []) ∷ [];
  discarded = 0;
  drawn = 2;
  usable = true;
  unusable_reason = lit "";
  unusable_is_ours = false;
  unusable_is_timeout = false;
  timed = [];
  timed_expectations = [];
  numeric = none;
  reference_values = [];
}

abbrev repeated : List Observation
repeated = answer "a" ∷ answer "b" ∷ []

abbrev mutant : ℕ → Attempt
mutant i = if i == 0 then answers repeated else answers (answer "x" ∷ answer "b" ∷ [])

call_battery_exact_example : battery_ok (battery plain dumps repeated mutant [] [] true corpus) ≡ (
    ltb 0 (score_reference plain dumps corpus repeated).1
    && (score_reference plain dumps corpus repeated).0
      == (score_reference plain dumps corpus repeated).1
    && (verdict_ok (floor (score_trivial plain dumps corpus) trivial)
        && ((perturb plain dumps corpus mutant []).0 && (is_nil {A = String} [] && true))))
call_battery_exact_example =
    call_battery_exact plain dumps corpus (refl, (refl, tt)) repeated mutant [] [] true

-- Two runs of five probes, of which the last three are held out to be timed.
abbrev inputs_of_five : List (String × Arguments)
inputs_of_five = ("p", []) ∷ ("q", []) ∷ ("r", []) ∷ ("s", []) ∷ ("t", []) ∷ []

abbrev twice : String → List Observation
twice s = answer s ∷ answer s ∷ []

abbrev runs_of_five : List (String × List Observation)
runs_of_five =
    ("p", twice "a")
    ∷ ("q", twice "b")
    ∷ ("r", twice "c")
    ∷ ("s", twice "d")
    ∷ ("t", twice "e")
    ∷ []

ceiling-Answers_example :
    verdict_ok (
      ceiling (
        score_reference plain dumps
          (conclude plain dumps none inputs_of_five runs_of_five)
          repeated))
    ≡ true
unfolding conclude
ceiling-Answers_example =
    ceiling-Answers plain dumps inputs_of_five runs_of_five repeated refl refl refl
      (inl refl, (inl refl, tt))

-- The first mutant answers alike; the second is noticed.
second_noticed : perturb plain dumps corpus mutant [] ≡ (true, true)
unfolding perturb
second_noticed = refl
