-- ===== src/Process/Tally.antt =====
-- `freeze` of frf/observe/process/stages.py, from the runs that were observed of a scenario on: what
-- is frozen of them, and the refusals of a corpus that measured nothing.
use frontier_refactor_factor.Prelude.{
  ℕ, zero, suc, ◌*◌, String, Bool, true, false, not, ◌&&◌, Option, none, some, List, [], ◌∷◌, map,
  if◌then◌else◌, ◌==◌, leb, length, take, is_nil, any, all, select, find, set, has, get_elem?,
  eq_string, pos, int_eq, Message, lit, fmt, cat, num, share, join, message_eq,
}
use frontier_refactor_factor.Exec.{Result, ok, err, error, other_error}
use frontier_refactor_factor.Process.{
  Observation, Channel, channels, channel_name, channel_of, Expectation, graded_points, freeze_step,
  froze_work,
}
use frontier_refactor_factor.Process.Corpus.{Scenario, Corpus}
use frontier_refactor_factor.Process.Timing.{Feature, pick_timed}
use frontier_refactor_factor.Process.Workload.{
  command_family, control_signatures, Signature, eligible_timing_steps, rules_of,
}

infixl 10 ◌>>=◌
abbrev pub ◌>>=◌ {ℓ κ} : {A : Type ℓ} {B : Type κ} → Option A → (A → Option B) → Option B
none >>= f = none
some a >>= f = f a

-- `[observed[index] for observed in runs_observed]`; `none` stands for the IndexError
unfoldable pub column : ℕ → List (List Observation) → Option (List Observation)
column i [] = some []
column i (run ∷ runs) = do o ← get_elem? run i; os ← column i runs; some (o ∷ os)

-- `int(one.exit_code or 0) == PROGRAM_NOT_FOUND`
abbrev pub not_found : Observation → Bool
not_found o = int_eq o.exit_code (pos 127)

-- Whether there was a run, and every command of every run said "not found".
abbrev pub never_found : List (List Observation) → Bool
never_found runs = not (is_nil runs) && all (λ run. all not_found run) runs

-- `any(step.graded_points() for step in steps)`
abbrev pub has_points : List Expectation → Bool
has_points steps = any (λ e. not (graded_points e == 0)) steps

-- The counter of the reasons, in the order in which they were first given.
unfoldable pub tally : Message → List (Message × ℕ) → List (Message × ℕ)
tally m [] = (m, 1) ∷ []
tally m ((k, n) ∷ why) =
    let rest = tally m why in if message_eq k m then (k, suc n) ∷ why else (k, n) ∷ rest

unfoldable pub tally_channels : Expectation → List Channel → List (Message × ℕ) → List (Message × ℕ)
unfolding tally
tally_channels e [] why = why
tally_channels e (c ∷ cs) why =
    let rule = channel_of e c in
    tally_channels e cs (
      if not rule.graded && not (message_eq rule.reason (lit ""))
      then tally (cat (lit (channel_name c)) (cat (lit ": ") rule.reason)) why
      else why)

unfoldable pub tally_steps : List Expectation → List (Message × ℕ) → List (Message × ℕ)
unfolding tally_channels
tally_steps [] why = why
tally_steps (e ∷ steps) why = tally_steps steps (tally_channels e channels why)

unfoldable pub insert_reason : Message × ℕ → List (Message × ℕ) → List (Message × ℕ)
insert_reason (m, n) [] = (m, n) ∷ []
insert_reason (m, n) ((k, j) ∷ why) =
    let rest = insert_reason (m, n) why in if leb j n then (m, n) ∷ (k, j) ∷ why else (k, j) ∷ rest

-- `why.most_common()`: the most frequent first, and of equals the first given
unfoldable pub most_common : List (Message × ℕ) → List (Message × ℕ)
unfolding insert_reason
most_common [] = []
most_common (w ∷ why) = insert_reason w (most_common why)

unfoldable pub unusable_because : ℕ → ℕ → List (Message × ℕ) → Message
unfolding most_common
unusable_because dropped drawn why =
    cat
      (fmt "%.0f%% of scenarios were discarded; what they disagreed on -- "
        (share (100 * dropped) drawn ∷ []))
      (join ", " (map (λ (m, n). cat m (fmt " (x%d)" (num n ∷ []))) (take 3 (most_common why))))

-- What the loop has gathered. `worked` are the scenarios whose frozen steps show work.
pub record Tallied : Type 0 where
  pub frozen : List (String × List Expectation)
  pub dropped : ℕ
  pub ever_ran : Bool
  pub worked : List String
  pub why : List (Message × ℕ)

abbrev pub nothing_yet : Tallied
nothing_yet = record { frozen = []; dropped = 0; ever_ran = false; worked = []; why = [] }

abbrev pub empty_corpus : ℕ → ℕ → Message → Corpus
empty_corpus drawn runs note = record {
  scenarios = [];
  expectations = [];
  discarded = drawn;
  drawn = drawn;
  usable = false;
  unusable_reason = lit "";
  adequacy_note = note;
  timed = [];
  timed_expectations = [];
  runs = runs;
}

abbrev pub names : List (String × List Expectation) → List String
names es = map (λ (pid, steps). pid) es

-- `{pid: frozen[pid] for pid in timed}`
abbrev pub rules_for :
    List (String × List Expectation) → List String → List (String × List Expectation)
rules_for frozen timed = map (λ pid. (pid, rules_of frozen pid)) timed

-- An IndexError, which nothing handles.
abbrev pub index_error : {A : Type 0} → Option A → Result A
index_error none =
    err (error (record { class = other_error "IndexError"; text = "list index out of range" }))
index_error (some a) = ok a

-- `features.setdefault(pid, {...})` for each scenario
unfoldable pub with_families :
    (String → Bool) → List Scenario → List (String × Feature) → Option (List (String × Feature))
unfolding command_family
with_families is_digit [] features = some features
with_families is_digit (s ∷ scenarios) features = do
  f ← command_family is_digit s.steps none
  with_families is_digit scenarios (elim (find s.probe_id features) [
    | some g ↦ features
    | none ↦
        set s.probe_id (record { family = f; input_key = s.probe_id; input_bytes = 0 }) features
  ])

-- Whether nothing that was run was found.
abbrev pub is_never_found : List Scenario → Tallied → Bool
is_never_found scenarios t = not (is_nil scenarios) && not t.ever_ran

abbrev pub never_found_corpus : List Scenario → ℕ → Corpus
never_found_corpus scenarios runs = empty_corpus (length scenarios) runs (
    lit "the reference exited 127 on every scenario -- it was never found, so nothing was measured")

-- Whether no scenario that froze shows the program working.
abbrev pub is_idle : List Scenario → Tallied → Bool
is_idle scenarios t =
    not (is_nil scenarios) && (t.ever_ran && not (any (λ w. has (names t.frozen) w) t.worked))

abbrev pub idle_corpus : List Scenario → ℕ → Corpus
idle_corpus scenarios runs = empty_corpus (length scenarios) runs (
    lit
      "the reference wrote nothing to stdout and exited non-zero on every scenario that froze -- it was invoked but never did any work")

module _ (sha : String → String) where
  unfoldable pub freeze_steps : ℕ → ℕ → List (List Observation) → Option (List Expectation)
  unfolding column freeze_step
  freeze_steps i zero runs = some []
  freeze_steps i (suc n) runs = do
    os ← column i runs
    rest ← freeze_steps (suc i) n runs
    some (freeze_step sha i os ∷ rest)

  -- A scenario that was run, with what its steps froze to.
  unfoldable pub keep_scenario : String → List Expectation → Tallied → Tallied
  unfolding tally_steps froze_work
  keep_scenario pid steps t =
      if has_points steps
      then record t {
        frozen = set pid steps t.frozen;
        ever_ran = true;
        worked = (if froze_work sha steps then pid ∷ t.worked else t.worked);
      }
      else record t { dropped = suc t.dropped; ever_ran = true; why = tally_steps steps t.why }

  -- One turn of the loop, after the runs.
  unfoldable pub tally_scenario : Scenario → List (List Observation) → Tallied → Result Tallied
  unfolding freeze_steps keep_scenario
  tally_scenario s runs t =
      if never_found runs
      then ok (record t { dropped = suc t.dropped })
      else index_error
          (do steps ← freeze_steps 0 (length s.steps) runs; some (keep_scenario s.probe_id steps t))

  -- `eligible`
  unfoldable pub eligible_scenarios :
      List (String × List Expectation) → List Signature → List Scenario → List String
  unfolding eligible_timing_steps
  eligible_scenarios frozen controls [] = []
  eligible_scenarios frozen controls (s ∷ scenarios) =
      let rest = eligible_scenarios frozen controls scenarios in
      elim (find s.probe_id frozen) [
        | none ↦ rest
        | some rules ↦
            if is_nil (eligible_timing_steps sha s rules controls) then rest else s.probe_id ∷ rest
      ]

  -- What follows the choice of the timed scenarios.
  unfoldable pub hold_out : List Scenario → ℕ → Tallied → List String → Corpus
  unfolding unusable_because
  hold_out scenarios runs t [] = record {
    scenarios = scenarios;
    expectations = t.frozen;
    discarded = 0;
    drawn = length scenarios;
    usable = false;
    unusable_reason = lit "no substantive timing workload";
    adequacy_note =
        lit
          "no successful input-bearing workload can be held out while retaining one for grading; help/version/error-only timing is invalid";
    timed = [];
    timed_expectations = [];
    runs = runs;
  }
  hold_out scenarios runs t (p ∷ ps) =
      let timed = p ∷ ps in
      let graded = select (λ (pid, steps). not (has timed pid)) t.frozen in
      let usable = not (is_nil graded) && leb (4 * t.dropped) (length scenarios) in
      if not (is_nil graded) && not (any (λ w. has (names graded) w) t.worked)
      then empty_corpus (length scenarios) runs (
          lit
            "every scenario that did real work was held out for timing, so the graded corpus contains only error paths")
      else record {
        scenarios = select (λ s. has (names t.frozen) s.probe_id) scenarios;
        expectations = graded;
        discarded = t.dropped;
        drawn = length scenarios;
        usable = usable;
        unusable_reason =
            (if not usable && not (is_nil t.why)
              then unusable_because t.dropped (length scenarios) t.why
              else lit "");
        adequacy_note = lit "";
        timed = timed;
        timed_expectations = rules_for t.frozen timed;
        runs = runs;
      }

  -- What follows the loop.
  unfoldable pub conclude :
      (String → Bool) → List (String × Feature) → List Scenario → ℕ → Tallied → Result Corpus
  unfolding with_families eligible_scenarios pick_timed hold_out control_signatures
  conclude is_digit features scenarios runs t =
      if is_never_found scenarios t
      then ok (never_found_corpus scenarios runs)
      else if is_idle scenarios t
      then ok (idle_corpus scenarios runs)
      else index_error (do
        all_features ← with_families is_digit scenarios features
        some (
            hold_out scenarios runs t (
              pick_timed all_features (names t.frozen) 3
                (eligible_scenarios t.frozen (control_signatures scenarios t.frozen) scenarios))))
