-- ===== src/Process/Battery.antt =====
-- The battery of frf/observe/process/stages.py: what the scenarios are run as, which channel is
-- disturbed, and the checks. What the observer saw of each way to run them is an argument.
use frontier_refactor_factor.Prelude.{
  ℕ, suc, ◌+◌, String, Bool, true, false, not, ◌&&◌, ◌||◌, Option, none, some, List, [], ◌∷◌, map,
  if◌then◌else◌, ◌==◌, ltb, length, get_elem?, eq_string, str_eq, str_int,
}
use frontier_refactor_factor.Evidence.{Battery, record_verdict}
use frontier_refactor_factor.Evidence.Checks.{
  ceiling, floor, channels_bite, points_are_about_the_subject, cannot_delegate_to_the_reference,
}
use frontier_refactor_factor.Process.{
  Stream, Observation, Channel, exit_channel, stdout_channel, stderr_channel, tree_channel,
  channels, channel_name, channel_of, ChannelExpectation, Expectation, graded_points, digest_text,
  digest_stream, grade,
}
use frontier_refactor_factor.Process.Corpus.{Scenario, Corpus, Observed, observed_of, score}

-- How the observer runs the scenarios.
pub data Mode : Type 0 where
  reference : Mode
  submission : String → Mode
  mutated : Channel → Mode

-- the keys of `TRIVIAL`
abbrev pub trivial : List String
trivial = "exit-0" ∷ "exit-1" ∷ "print-and-exit-0" ∷ []

abbrev no_reason : ChannelExpectation → ChannelExpectation
no_reason e = record e { graded = false }

-- `replace(expectation, **{name: replace(..., graded=False) for name in CHANNELS if name != channel})`
abbrev pub only : Expectation → Channel → Expectation
only e exit_channel = record e {
  stdout = no_reason e.stdout;
  stderr = no_reason e.stderr;
  tree = no_reason e.tree;
}
only e stdout_channel = record e {
  exit_code = no_reason e.exit_code;
  stderr = no_reason e.stderr;
  tree = no_reason e.tree;
}
only e stderr_channel = record e {
  exit_code = no_reason e.exit_code;
  stdout = no_reason e.stdout;
  tree = no_reason e.tree;
}
only e tree_channel = record e {
  exit_code = no_reason e.exit_code;
  stdout = no_reason e.stdout;
  stderr = no_reason e.stderr;
}

module _ (sha : String → String) where
  stream_moved : ChannelExpectation → Stream → Bool
  stream_moved expected stream =
      not (length stream.lines == expected.line_count)
      || not (str_eq (digest_stream sha stream expected.masked) expected.digest)

  unfoldable pub moved : Expectation → Observation → Channel → Bool
  unfolding stream_moved str_int
  moved e actual exit_channel =
      not (str_eq (digest_text sha (str_int actual.exit_code)) e.exit_code.digest)
  moved e actual stdout_channel = stream_moved e.stdout actual.stdout
  moved e actual stderr_channel = stream_moved e.stderr actual.stderr
  moved e actual tree_channel = stream_moved e.tree actual.tree

  -- One step of `_perturb`: whether the channel moved, and whether the verifier noticed.
  unfoldable pub perturb_step : Channel → Expectation → Option Observation → Bool × Bool
  unfolding moved
  perturb_step c e none = (false, false)
  perturb_step c e (some actual) =
      let (got, want, reasons) = grade sha (only e c) actual in
      if not (channel_of e c).graded
      then (false, false)
      else (moved e actual c, moved e actual c && (ltb 0 want && ltb got want))

  unfoldable pub perturb_steps : Channel → List Observation → ℕ → List Expectation → Bool × Bool
  unfolding perturb_step
  perturb_steps c actuals i [] = (false, false)
  perturb_steps c actuals i (e ∷ steps) =
      let (m, n) = perturb_step c e (get_elem? actuals i) in
      let (diverged, caught) = perturb_steps c actuals (suc i) steps in (m || diverged, n || caught)

  -- `_perturb`
  unfoldable pub perturb : List (String × List Expectation) → Observed → Channel → Bool × Bool
  unfolding perturb_steps
  perturb [] observed c = (false, false)
  perturb ((pid, steps) ∷ es) observed c =
      let (m, n) = perturb_steps c (observed_of observed pid) 0 steps in
      let (diverged, caught) = perturb es observed c in (m || diverged, n || caught)

-- `{s.probe_id: s for s in corpus.scenarios}.get(probe_id)`: the last one of that name
unfoldable pub scenario_of : String → List Scenario → Option Scenario
scenario_of pid [] = none
scenario_of pid (s ∷ ss) = elim (scenario_of pid ss) [
  | some t ↦ some t
  | none ↦ if str_eq s.probe_id pid then some s else none
]

abbrev pub invokes : List String → Bool
invokes [] = false
invokes (a ∷ argv) = str_eq a "{PROGRAM}"

-- `step and step.argv and step.argv[0] == '{PROGRAM}'`, of the step at an index
abbrev pub touches : Option Scenario → ℕ → Bool
touches none i = false
touches (some s) i = elim (get_elem? s.steps i) [ none ↦ false | some step ↦ invokes step.argv ]

unfoldable pub touching_steps : Option Scenario → ℕ → List Expectation → ℕ × ℕ
touching_steps s i [] = (0, 0)
touching_steps s i (e ∷ steps) =
    let (touching, total) = touching_steps s (suc i) steps in
    if graded_points e == 0
    then (touching, total)
    else ((if touches s i then 1 else 0) + touching, suc total)

unfoldable pub touching_over : List Scenario → List (String × List Expectation) → ℕ × ℕ
unfolding scenario_of touching_steps
touching_over scenarios [] = (0, 0)
touching_over scenarios ((pid, steps) ∷ es) =
    let (m, n) = touching_steps (scenario_of pid scenarios) 0 steps in
    let (touching, total) = touching_over scenarios es in (m + touching, n + total)

-- `_steps_touching_subject`
unfoldable pub steps_touching_subject : Corpus → ℕ × ℕ
unfolding touching_over
steps_touching_subject corpus = touching_over corpus.scenarios corpus.expectations

-- a channel by its name; the battery passes no other name
abbrev pub channel_named : String → Channel
channel_named name =
    if str_eq name "exit_code"
    then exit_channel
    else if str_eq name "stdout"
    then stdout_channel
    else if str_eq name "stderr"
    then stderr_channel
    else tree_channel

unfoldable pub battery :
    (String → String) → (Mode → Observed) → List String → Bool → Corpus → Battery
unfolding score perturb steps_touching_subject
battery sha run_all forbidden isolated corpus =
    let none_yet : Battery = record { verdicts = [] } in
    let b1 =
      record_verdict none_yet (ceiling (score sha corpus.expectations (run_all reference))) in
    let b2 =
      record_verdict b1
        (floor (λ name. score sha corpus.expectations (run_all (submission name))) trivial) in
    let b3 = record_verdict b2 (
      channels_bite
        (λ name.
          perturb sha corpus.expectations (run_all (mutated (channel_named name)))
            (channel_named name))
        (map channel_name channels)) in
    let b4 =
      record_verdict b3 (points_are_about_the_subject (steps_touching_subject corpus) true) in
    record_verdict b4 (cannot_delegate_to_the_reference forbidden isolated)
