-- ===== src/Process/Corpus.antt =====
-- The corpus of frf/observe/process/stages.py and how it is scored; with the steps and scenarios of
-- runner.py. What the observer saw of each scenario is an argument.
use frontier_refactor_factor.Prelude.{
  ℕ, suc, ◌+◌, String, Bool, Option, none, some, List, [], ◌∷◌, ◌++◌, map, if◌then◌else◌, ltb,
  length, get_elem?, find, distinct, eq_string, pos, Message,
}
use frontier_refactor_factor.Process.{
  Stream, Observation, Channel, channels, channel_of, Expectation, graded_points, grade,
}

pub record Step : Type 0 where
  pub argv : List String
  pub cwd : String
  pub stdin : Option String

pub record Scenario : Type 0 where
  pub probe_id : String
  pub steps : List Step
  pub fixture : Option String
  pub environment : List (String × String)

-- `expectations` and `timed_expectations` are dictionaries by probe. The rate of what was
-- discarded is `discarded` of `drawn`.
pub record Corpus : Type 0 where
  pub scenarios : List Scenario
  pub expectations : List (String × List Expectation)
  pub discarded : ℕ
  pub drawn : ℕ
  pub usable : Bool
  pub unusable_reason : Message
  pub adequacy_note : Message
  pub timed : List String
  pub timed_expectations : List (String × List Expectation)
  pub runs : ℕ

abbrev pub probes : Corpus → ℕ
probes c = length c.expectations

-- `sum(step.graded_points() for step in steps)`
abbrev pub steps_points : List Expectation → ℕ
steps_points [] = 0
steps_points (e ∷ steps) = graded_points e + steps_points steps

abbrev pub expectations_points : List (String × List Expectation) → ℕ
expectations_points [] = 0
expectations_points ((pid, steps) ∷ es) = steps_points steps + expectations_points es

abbrev pub corpus_points : Corpus → ℕ
corpus_points c = expectations_points c.expectations

-- `per_channel[channel]`, of the steps in their order
unfoldable pub channel_digests : Channel → List Expectation → List String
channel_digests c [] = []
channel_digests c (e ∷ steps) =
    let rest = channel_digests c steps in
    if (channel_of e c).graded then (channel_of e c).digest ∷ rest else rest

unfoldable pub all_steps : List (String × List Expectation) → List Expectation
all_steps [] = []
all_steps ((pid, steps) ∷ es) = steps ++ all_steps es

unfoldable pub maximum : List ℕ → ℕ
maximum [] = 0
maximum (n ∷ ns) = let m = maximum ns in if ltb n m then m else n

unfoldable pub distinct_answers : Corpus → ℕ
unfolding channel_digests all_steps maximum
distinct_answers corpus =
    maximum
      (map (λ c. length (distinct (channel_digests c (all_steps corpus.expectations)))) channels)

-- What was observed of each probe, one observation for each step.
abbrev pub Observed : Type 0
Observed = List (String × List Observation)

-- `observed.get(probe_id) or []`
abbrev pub observed_of : Observed → String → List Observation
observed_of observed pid = elim (find pid observed) [ some os ↦ os | none ↦ [] ]

abbrev no_lines : Stream
no_lines = record { lines = [] }

-- `obs.Observation(127)`
abbrev pub missing : Observation
missing = record { exit_code = pos 127; stdout = no_lines; stderr = no_lines; tree = no_lines }

-- `observed[index] if index < len(observed) else obs.Observation(127)`
abbrev pub or_missing : Option Observation → Observation
or_missing none = missing
or_missing (some o) = o

module _ (sha : String → String) where
  unfoldable pub score_steps : List Observation → ℕ → List Expectation → ℕ × ℕ
  score_steps observed i [] = (0, 0)
  score_steps observed i (e ∷ steps) =
      let (got, want, reasons) = grade sha e (or_missing (get_elem? observed i)) in
      let (passed, total) = score_steps observed (suc i) steps in (got + passed, want + total)

  -- `_score`
  unfoldable pub score : List (String × List Expectation) → Observed → ℕ × ℕ
  unfolding score_steps
  score [] observed = (0, 0)
  score ((pid, steps) ∷ es) observed =
      let (got, want) = score_steps (observed_of observed pid) 0 steps in
      let (passed, total) = score es observed in (got + passed, want + total)
