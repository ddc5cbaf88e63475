-- ===== src/Pipeline/Run.antt =====
-- `_run` and `build_one` of frf/core/pipeline.py: one candidate becomes a task, or the reason that
-- there is none. What the callback `log` is told is left out.
use frontier_refactor_factor.Prelude.{
  ℕ, String, Bool, true, false, not, Option, none, some, List, [], ◌∷◌, ltb, if◌then◌else◌, length,
  drop, select, str_eq, Message, fmt, str, clip,
}
use frontier_refactor_factor.Evidence.{Verdict, Battery, record_verdict}
use frontier_refactor_factor.Evidence.Checks.{
  ImageOutcome, package_reproduces_itself, reproduces_in_its_own_image,
}
use frontier_refactor_factor.Exec.{
  value_error, class_name, is_os_error, is_exception, Fault, material, factory, refusal, error,
  Result, ok, err, Exec, pure, lift, gets, attempt, ◌>>=◌, ◌>>◌,
}
use frontier_refactor_factor.Pipeline.Spec.{Candidate, Spec, specify}
use frontier_refactor_factor.Pipeline.Corpus.{Report, check_corpus, check_adequate, check_timing}
use frontier_refactor_factor.Pipeline.Hooks.{Scale, Hooks, Delivery}
use frontier_refactor_factor.Pipeline.Gates.{
  build_failed, probes_failed, freeze_failed, deferred_execution, is_among, check_battery,
  check_late, check_quality, replay_failed, check_replay, check_execution, check_resolved,
  image_failed, check_image,
}

pub record Emitted : Type 0 where
  pub name : String
  pub path : String
  pub scale : String
  pub graded_points : ℕ
  pub probes : ℕ
  pub discarded : ℕ
  pub drawn : ℕ
  pub source_language : String
  pub target_language : String
  pub battery : List Verdict

-- The class `Refused`, with the candidate's own language, and no target language.
pub record Refused : Type 0 where
  pub stage : String
  pub reason : String
  pub fault : Fault
  pub detail : Message
  pub identity : String
  pub source_language : String

pub data Built : Type 0 where
  refused : Refused → Built
  emitted : Emitted → Built

abbrev pub or_else : Option Spec → Spec → Spec
or_else none spec = spec
or_else (some refined) spec = refined

-- `except OSError: log(...)`
abbrev ignore_os_error : Result (Unit {0}) → Result (Unit {0})
ignore_os_error (ok u) = ok u
ignore_os_error (err (refusal s)) = err (refusal s)
ignore_os_error (err (error e)) = if is_os_error e.class then ok tt else err (error e)

abbrev pub without : List Verdict → Battery → Battery
without deferred battery = record battery {
  verdicts = select (λ v. not (is_among deferred v)) battery.verdicts;
}

module _ {W : Type 0} where
  -- The hook `execution_evidence`, if there is one, settles the deferred verdicts.
  unfoldable pub settle_execution :
      Option (String → ℕ × ℕ → Exec W Verdict)
      → List Verdict
      → String
      → ℕ × ℕ
      → Battery
      → Exec W Battery
  settle_execution none deferred path score battery = pure battery
  settle_execution (some evidence) deferred path score battery = do
    execution ← evidence path score
    lift (check_execution execution)
    pure (record_verdict (without deferred battery) execution)

  -- E9, if the hook `replay_in_image` is there.
  unfoldable pub settle_image :
      Option (String → Exec W ImageOutcome) → String → Battery → Exec W Battery
  settle_image none path battery = pure battery
  settle_image (some drive) path battery = do
    outcome ← attempt image_failed (drive path)
    lift (check_image (reproduces_in_its_own_image outcome))
    pure (record_verdict battery (reproduces_in_its_own_image outcome))

  unfoldable pub attest : Exec W (Unit {0}) → Exec W (Unit {0})
  attest write w = let (r, w') = write w in (ignore_os_error r, w')

abbrev pub emitted_task : Spec → String → Report → Battery → Emitted
emitted_task spec path report battery = record {
  name = spec.name;
  path = path;
  scale = spec.scale;
  graded_points = report.graded_points;
  probes = report.probes;
  discarded = report.discarded;
  drawn = report.drawn;
  source_language = spec.language;
  target_language = spec.target_language;
  battery = battery.verdicts;
}

-- The clauses of `build_one` around `_run`.
unfoldable pub conclude : Candidate → Result Emitted → Result Built
conclude candidate (ok e) = ok (emitted e)
conclude candidate (err (refusal s)) = ok (
    refused (record {
      stage = s.stage;
      reason = s.reason;
      fault = s.fault;
      detail = s.detail;
      identity = candidate.identity;
      source_language = candidate.language;
    }))
conclude candidate (err (error e)) =
    let detail = clip 2000 (fmt "%s: %s" (str (class_name e.class) ∷ str e.text ∷ [])) in
    if not (is_exception e.class)
    then err (error e)
    else if str_eq (class_name e.class) "SubjectFailed"
    then ok (
        refused (record {
          stage = "subject";
          reason = "subject-failed";
          fault = material;
          detail = detail;
          identity = candidate.identity;
          source_language = candidate.language;
        }))
    else ok (
        refused (record {
          stage = "unclassified";
          reason = class_name e.class;
          fault = factory;
          detail = detail;
          identity = candidate.identity;
          source_language = candidate.language;
        }))

module _ {W Source Observer : Type 0} (scale : Scale W Source Observer)
    (hooks : Hooks W Source Observer) (delivery : Delivery W) (enforce : Bool) where
  abbrev pub has_evidence : Bool
  has_evidence = elim hooks.execution_evidence [ none ↦ false | some f ↦ true ]

  -- From the end of the evidence stage on: emit, open what was written, and record it.
  unfoldable pub deliver : Spec → Report → Battery → Exec W Emitted
  unfolding settle_execution settle_image attest
  deliver spec report battery = do
    (path, written) ← hooks.emit spec report battery
    lift (check_late (drop (length battery.verdicts) written.verdicts))
    errors ← delivery.deterministic_quality path
    lift (check_quality errors)
    score ← attempt replay_failed (hooks.replay path)
    lift (check_replay (package_reproduces_itself score))
    settled ←
        settle_execution hooks.execution_evidence (deferred_execution has_evidence battery) path
          score (record_verdict written (package_reproduces_itself score))
    lift (check_resolved settled)
    final ← settle_image hooks.replay_in_image path settled
    delivery.purge_task_bytecode path
    sidecar ← delivery.build_attestation spec report final score
    attest (delivery.write_attestation path sidecar)
    pure (emitted_task spec path report final)

  -- From the freeze to the evidence stage.
  unfoldable pub examine : Spec → Observer → Report → Exec W Emitted
  unfolding deliver
  examine spec observer frozen = do
    lift (check_corpus enforce frozen)
    report ← hooks.adequacy spec observer frozen
    lift (check_adequate report)
    lift (check_timing report)
    battery ← hooks.battery spec observer report
    lift (check_battery (deferred_execution has_evidence battery) battery)
    deliver spec report battery

  unfoldable pub run : Candidate → ℕ → Exec W Emitted
  unfolding examine
  run candidate freeze_runs = do
    proposed ← specify scale.specifier candidate
    attempt build_failed (hooks.build proposed)
    source ← attempt probes_failed (scale.probes proposed)
    refined ← gets scale.refined_spec
    observer ← scale.observe
    frozen ←
        attempt freeze_failed (hooks.freeze (or_else refined proposed) observer source freeze_runs)
    examine (or_else refined proposed) observer frozen

  unfoldable pub build_one : Candidate → ℕ → Exec W Built
  unfolding run conclude
  build_one candidate freeze_runs w =
      if ltb freeze_runs 2
      then (
        err (
            error (record {
              class = value_error "ValueError";
              text = "freeze_runs must be at least 2";
            })),
        w,
      )
      else (let (r, w') = run candidate freeze_runs w in (conclude candidate r, w'))
