-- ===== src/Process/Laws/Tests.antt =====
-- The theorems on the seam of commands at concrete inputs. The hash is the text itself.
use frontier_refactor_factor.Prelude.{
  ◌≡◌, ◌↔◌, refl, String, Bool, true, false, List, [], ◌∷◌, ltb, pos, ◌==◌, ◌&&◌, none, select, has,
  eq_string, any, is_nil, inl, inr, length, lit,
}
use frontier_refactor_factor.Exec.{Exec, Result, pure, ok, err}
use frontier_refactor_factor.Exec.Ensures.{Ensures}
use frontier_refactor_factor.Evidence.{verdict_ok, battery_ok}
use frontier_refactor_factor.Evidence.Checks.{ceiling, floor}
use frontier_refactor_factor.Process.{
  Observation, Channel, channel_of, channels, Expectation, freeze_step, grade,
}
use frontier_refactor_factor.Process.Corpus.{
  Scenario, Step, Corpus, score, Observed, expectations_points,
}
use frontier_refactor_factor.Process.Battery.{
  battery, Mode, reference, submission, mutated, perturb, trivial, steps_touching_subject,
}
use frontier_refactor_factor.Process.Timing.{Feature, pick_timed}
use frontier_refactor_factor.Process.Tally.{freeze_steps}
use frontier_refactor_factor.Process.Freeze.{freeze}
use frontier_refactor_factor.Process.Laws.Grading.{Reproduced}
use frontier_refactor_factor.Process.Laws.Steps.{grade-Reproduced}
use frontier_refactor_factor.Process.Laws.Replay.{ceiling-Repeats}
use frontier_refactor_factor.Process.Laws.Battery.{battery_exact}
use frontier_refactor_factor.Process.Laws.Timed.{HeldOut, pick_timed_lem}
use frontier_refactor_factor.Process.Laws.Sound.{Sound, freeze-Sound}

abbrev plain : String → String
plain s = s

-- One command that prints the time and a result.
abbrev run_at : String → String → Observation
run_at time result = record {
  exit_code = pos 0;
  stdout = record { lines = time ∷ result ∷ [] };
  stderr = record { lines = [] };
  tree = record { lines = [] };
}

abbrev first : Observation
first = run_at "12:00" "42"

abbrev second : Observation
second = run_at "12:01" "42"

abbrev submitted : Observation
submitted = run_at "23:59" "42"

grade-Reproduced_example :
    ((grade plain (freeze_step plain 0 (first ∷ second ∷ [])) submitted).0
      ≡ (grade plain (freeze_step plain 0 (first ∷ second ∷ [])) submitted).1)
    ↔ ((c : Channel)
        → (channel_of (freeze_step plain 0 (first ∷ second ∷ [])) c).graded ≡ true
        → Reproduced first (second ∷ []) submitted c)
grade-Reproduced_example =
    grade-Reproduced plain 0 first (second ∷ []) submitted (λ s t e. e) ((refl, (refl, tt)), tt, tt)
      ((refl, (refl, tt)), tt, tt)

-- The line with the time is masked; a line less is not.
clock_masked :
    ((grade plain (freeze_step plain 0 (first ∷ second ∷ [])) submitted).0 ≡ 4)
    × ((grade plain
          (freeze_step plain 0 (first ∷ second ∷ []))
          (record submitted { stdout = record { lines = "42" ∷ [] } })).0
        ≡ 3)
unfolding grade freeze_step
clock_masked = (refl, refl)

abbrev frozen : List (String × List Expectation)
frozen = ("probe", freeze_step plain 0 (first ∷ second ∷ []) ∷ []) ∷ []

abbrev again : Observed
again = ("probe", second ∷ []) ∷ []

ceiling-Repeats_example :
    verdict_ok (ceiling (score plain frozen again)) ≡ ltb 0 (expectations_points frozen)
unfolding freeze_steps
ceiling-Repeats_example = ceiling-Repeats plain frozen again (
    (
      record { runs = (first ∷ []) ∷ (second ∷ []) ∷ []; from_runs = refl; again = inr (inl refl) },
      tt,
    ))

abbrev echo_step : Step
echo_step = record { argv = "{PROGRAM}" ∷ "x" ∷ []; cwd = "."; stdin = none }

abbrev scenario : String → Scenario
scenario pid = record { probe_id = pid; steps = echo_step ∷ []; fixture = none; environment = [] }

abbrev three : List Scenario
three = scenario "a" ∷ scenario "b" ∷ scenario "c" ∷ []

abbrev corpus : Corpus
corpus = record {
  scenarios = scenario "probe" ∷ [];
  expectations = frozen;
  discarded = 0;
  drawn = 1;
  usable = true;
  unusable_reason = lit "";
  adequacy_note = lit "";
  timed = [];
  timed_expectations = [];
  runs = 2;
}

abbrev run_all : Mode → Observed
run_all reference = again
run_all (submission name) = []
run_all (mutated c) = []

battery_exact_example : battery_ok (battery plain run_all [] true corpus) ≡ (
    ltb 0 (score plain frozen again).1
    && (score plain frozen again).0 == (score plain frozen again).1
    && (verdict_ok (floor (λ name. score plain frozen (run_all (submission name))) trivial)
        && (any (λ c. (perturb plain frozen (run_all (mutated c)) c).0) channels
            && (ltb 0 (steps_touching_subject corpus).1
                && (steps_touching_subject corpus).0 == (steps_touching_subject corpus).1
                && (is_nil {A = String} [] && true)))))
battery_exact_example = battery_exact plain run_all [] true corpus

abbrev features : List (String × Feature)
features =
    ("a", record { family = "x"; input_key = "1"; input_bytes = 10 })
    ∷ ("b", record { family = "x"; input_key = "2"; input_bytes = 20 })
    ∷ []

pick_timed_lem_example :
    HeldOut features
      (select (λ pid. has ("a" ∷ "b" ∷ []) pid) ("a" ∷ "b" ∷ "c" ∷ []))
      3
      (pick_timed features ("a" ∷ "b" ∷ "c" ∷ []) 3 ("a" ∷ "b" ∷ []))
pick_timed_lem_example = pick_timed_lem features ("a" ∷ "b" ∷ "c" ∷ []) ("a" ∷ "b" ∷ []) 3 refl

-- Of two scenarios of one family the larger is timed, and the other is left.
larger_timed : pick_timed features ("a" ∷ "b" ∷ "c" ∷ []) 3 ("a" ∷ "b" ∷ []) ≡ "b" ∷ []
unfolding pick_timed
larger_timed = refl

abbrev on_time : Exec (Unit {0}) Bool
on_time = pure false

abbrev observe : Scenario → Exec (Unit {0}) (List (List Observation))
observe s = pure ((first ∷ []) ∷ (second ∷ []) ∷ [])

freeze-Sound_example :
    Ensures
      (λ c. c.usable ≡ true → Sound plain three c)
      (freeze plain (λ s. false) on_time observe [] three 2)
freeze-Sound_example = freeze-Sound plain (λ s. false) on_time observe [] three 2 refl

abbrev is_usable : Result Corpus → Bool
is_usable (ok c) = c.usable && length c.timed == 2
is_usable (err x) = false

-- There is such a corpus: of three scenarios, two are timed.
three_usable : is_usable (freeze plain (λ s. false) on_time observe [] three 2 tt).0 ≡ true
unfolding freeze
three_usable = refl
