-- ===== src/Call/Corpus.antt =====
-- The corpus of frf/observe/call/stages.py, `_pick_timed`, and what `freeze` makes of what was
-- observed of every probe.
use frontier_refactor_factor.Prelude.{
  ℕ, suc, ◌-◌, String, ◌<>◌, Bool, true, false, not, ◌&&◌, Option, none, some, List, [], ◌∷◌, ◌++◌,
  map, if◌then◌else◌, ltb, leb, length, drop, is_nil, any, select, count, find, set, has, distinct,
  eq_string, str_eq, padded, Message, lit, fmt, num, clip, cat,
}
use frontier_refactor_factor.Compare.{Value, Policy, Units}
use frontier_refactor_factor.Call.{
  Observation, Expectation, graded, freeze_corpus, FreezeReport, report_usable, attempted,
}

-- `inputs` are the arguments of the probes, by their names; the rate of what was discarded is
-- `discarded` of `drawn`. `numeric` is the policy, with the units of floats.
pub record Corpus (Args : Type 0) : Type 0 where
  pub expectations : List Expectation
  pub inputs : List (String × Args)
  pub discarded : ℕ
  pub drawn : ℕ
  pub usable : Bool
  pub unusable_reason : Message
  pub unusable_is_ours : Bool
  pub unusable_is_timeout : Bool
  pub timed : List String
  pub timed_expectations : List (String × String)
  pub numeric : Option (Policy × Units)
  pub reference_values : List (String × Observation)

abbrev pub Observed : Type 0
Observed = List (String × List Observation)

-- `max((e.runs for e in self.expectations), default=0)`
unfoldable pub most_runs : List Expectation → ℕ
most_runs [] = 0
most_runs (e ∷ es) = let m = most_runs es in if ltb e.runs m then m else e.runs

abbrev pub points : List Expectation → ℕ
points = count graded

-- `{e.digest for e in expectations if e.graded()}`
abbrev pub digests_of : List Expectation → List String
digests_of es = distinct (map (λ e. e.digest) (select graded es))

-- `{"probe-%04d" % i: args for i, args in enumerate(...)}`
unfoldable pub number_inputs : {Args : Type 0} → ℕ → List Args → List (String × Args)
unfolding padded
number_inputs i [] = []
number_inputs i (a ∷ args) = ("probe-" <> padded i, a) ∷ number_inputs (suc i) args

abbrev pub runs_at : Option (List Observation) → List Observation
runs_at none = []
runs_at (some os) = os

-- `observed[probe_id].append(answer)`
unfoldable pub append_answer : String → Observation → Observed → Observed
append_answer pid o observed = set pid (runs_at (find pid observed) ++ o ∷ []) observed

-- `for (probe_id, _), answer in zip(items, answers)`
unfoldable pub append_answers :
    {Args : Type 0} → List (String × Args) → List Observation → Observed → Observed
unfolding append_answer
append_answers [] os observed = observed
append_answers (i ∷ items) [] observed = observed
append_answers ((pid, a) ∷ items) (o ∷ os) observed =
    append_answers items os (append_answer pid o observed)

-- The probes that some run answered.
unfoldable pub answered_of : Observed → List String
answered_of [] = []
answered_of ((pid, runs) ∷ observed) =
    let rest = answered_of observed in if any (λ o. o.ok) runs then pid ∷ rest else rest

-- The first error that is not the empty text.
unfoldable pub first_error : List Observation → String → String
first_error [] otherwise = otherwise
first_error (o ∷ os) otherwise =
    let rest = first_error os otherwise in if str_eq o.error "" then rest else o.error

unfoldable pub sample_error : Observed → String
unfolding first_error
sample_error [] = ""
sample_error ((pid, runs) ∷ observed) = first_error runs (sample_error observed)

abbrev pub min : ℕ → ℕ → ℕ
min m n = if ltb n m then n else m

-- `xs[-n:]`, of a positive `n`
abbrev pub last : {A : Type 0} → ℕ → List A → List A
last n xs = drop (length xs - n) xs

-- `_pick_timed`, with a positive count
unfoldable pub pick_timed : List Expectation → ℕ → List String → List String
pick_timed expectations n [] =
    if ltb n (length expectations) then last n (map (λ e. e.probe_id) expectations) else []
pick_timed expectations n (a ∷ answered) =
    let usable = select (λ pid. has (a ∷ answered) pid) (map (λ e. e.probe_id) expectations) in
    let available = length usable - 1 in
    if leb available 0 then [] else last (min n available) usable

-- `{e.probe_id: e.digest for e in expectations if e.probe_id in timed}`
unfoldable pub timed_digests : List String → List Expectation → List (String × String)
timed_digests timed [] = []
timed_digests timed (e ∷ es) =
    let rest = timed_digests timed es in
    if has timed e.probe_id then (e.probe_id, e.digest) ∷ rest else rest

-- `{pid: answers[0] for pid, answers in observed.items() if answers}`
unfoldable pub first_answers : Observed → List (String × Observation)
first_answers [] = []
first_answers ((pid, []) ∷ observed) = first_answers observed
first_answers ((pid, o ∷ os) ∷ observed) = (pid, o) ∷ first_answers observed

abbrev pub is_given : Option (Policy × Units) → Bool
is_given none = false
is_given (some p) = true

abbrev pub unusable : {Args : Type 0} → List (String × Args) → Message → Corpus Args
unusable inputs reason = record {
  expectations = [];
  inputs = inputs;
  discarded = length inputs;
  drawn = length inputs;
  usable = false;
  unusable_reason = reason;
  unusable_is_ours = false;
  unusable_is_timeout = false;
  timed = [];
  timed_expectations = [];
  numeric = none;
  reference_values = [];
}

abbrev pub timed_out : {Args : Type 0} → List (String × Args) → ℕ → Corpus Args
timed_out inputs seconds =
    record (unusable inputs (fmt "freeze timeout after %.0fs" (num seconds ∷ []))) {
      unusable_is_timeout = true;
    }

abbrev pub refused_corpus : {Args : Type 0} → List (String × Args) → String → Corpus Args
refused_corpus inputs sample = unusable inputs (
    cat
      (lit
        "the subject refused every probe -- it was reached but never answered successfully, so nothing about it was measured: ")
      (if str_eq sample "" then lit "(no message)" else clip 300 (lit sample)))

-- Whether some probe is graded, and none of those was answered.
abbrev pub is_refusals : List Expectation → List String → Bool
is_refusals kept answered =
    not (is_nil kept) && not (any (λ pid. has (map (λ e. e.probe_id) kept) pid) answered)

abbrev pub refusals_corpus : {Args : Type 0} → List (String × Args) → Corpus Args
refusals_corpus inputs = unusable inputs (
    lit
      "every probe the subject answered was discarded or held out for timing; the graded corpus is refusals only")

abbrev pub is_one_result : List Expectation → Bool
is_one_result kept = not (is_nil kept) && ltb (length (digests_of kept)) 2

abbrev pub one_result_corpus :
    {Args : Type 0} → List (String × Args) → List Expectation → Corpus Args
one_result_corpus inputs kept = unusable inputs (
    fmt
      "all %d graded probes froze to a single result; a submission returning that one constant would score full marks"
      (num (length kept) ∷ []))

abbrev pub held_corpus :
    {Args : Type 0}
    → Option (Policy × Units)
    → List (String × Args)
    → Observed
    → FreezeReport
    → List String
    → List Expectation
    → Corpus Args
held_corpus numeric inputs observed report timed kept = record {
  expectations = kept;
  inputs = inputs;
  discarded = length report.discarded;
  drawn = attempted report;
  usable = report_usable report;
  unusable_reason = lit "";
  unusable_is_ours = false;
  unusable_is_timeout = false;
  timed = timed;
  timed_expectations = timed_digests timed report.expectations;
  numeric = numeric;
  reference_values = (if is_given numeric then first_answers observed else []);
}

module _ (sha : String → String) (dumps : Bool → Value → String → String) {Args : Type 0} where
  -- What follows the choice of the timed probes.
  unfoldable pub hold_out :
      Option (Policy × Units)
      → List (String × Args)
      → Observed
      → FreezeReport
      → List String
      → Corpus Args
  unfolding answered_of timed_digests first_answers report_usable
  hold_out numeric inputs observed report timed =
      let kept = select (λ e. not (has timed e.probe_id)) report.expectations in
      if is_refusals kept (answered_of observed)
      then refusals_corpus inputs
      else if is_one_result kept
      then one_result_corpus inputs kept
      else held_corpus numeric inputs observed report timed kept

  -- What follows the runs.
  unfoldable pub conclude : Option (Policy × Units) → List (String × Args) → Observed → Corpus Args
  unfolding hold_out freeze_corpus pick_timed sample_error answered_of
  conclude numeric inputs observed =
      let report = freeze_corpus sha dumps observed in
      if not (is_nil inputs) && is_nil (answered_of observed)
      then refused_corpus inputs (sample_error observed)
      else hold_out numeric inputs observed report
          (pick_timed report.expectations 3 (answered_of observed))
