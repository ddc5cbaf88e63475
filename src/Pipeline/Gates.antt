-- ===== src/Pipeline/Gates.antt =====
-- The handlers and the gates of `_run` in frf/core/pipeline.py, one definition for each.
use frontier_refactor_factor.Prelude.{
  String, ◌<>◌, Bool, not, ◌&&◌, ◌||◌, List, [], ◌∷◌, ◌==◌, if◌then◌else◌, is_nil, any, select,
  length, map, str_eq, Message, lit, clip, join, has_text,
}
use frontier_refactor_factor.Evidence.{
  holds, inconclusive, Verdict, verdict_ok, Battery, battery_ok, failures, outcome_eq, verdict_eq,
}
use frontier_refactor_factor.Exec.{
  Exn, is_runtime_error, is_os_error, is_value_error, is_sandbox_or_pressure, is_timeout, Fault,
  material, factory, Raised, refusal, error, Result, ok, refuse,
}

-- `str(why)[:2000]`
abbrev why : Exn → Message
why e = clip 2000 (lit e.text)

abbrev refusing : String → String → Fault → Exn → Raised
refusing s r f e = refusal (record { stage = s; reason = r; fault = f; detail = why e })

unfoldable pub build_failed : Raised → Raised
build_failed (refusal s) = refusal s
build_failed (error e) =
    if is_sandbox_or_pressure e.class || is_timeout e.class
    then refusing "build" "build-execution-unavailable" factory e
    else if is_runtime_error e.class || is_os_error e.class
    then refusing "build" "reference-will-not-build" material e
    else error e

abbrev pub our_generator_bugs : List String
our_generator_bugs =
    "NameError" ∷ "SyntaxError" ∷ "IndentationError" ∷ "ImportError" ∷ "ModuleNotFoundError"
    ∷ "the gateway did not answer" ∷ []

-- `_generator_fault`
unfoldable pub generator_fault : String → Fault
generator_fault text =
    if any (λ mark. has_text text mark) our_generator_bugs then factory else material

unfoldable pub probes_failed : Raised → Raised
unfolding generator_fault
probes_failed (refusal s) = refusal s
probes_failed (error e) =
    if is_sandbox_or_pressure e.class || is_os_error e.class
    then refusing "probes" "probe-execution-unavailable" factory e
    else if is_value_error e.class
    then refusing "probes" "no-probes-could-be-drawn" (generator_fault e.text) e
    else if is_runtime_error e.class
    then refusing "probes" "probe-generator-failed" material e
    else error e

unfoldable pub freeze_failed : Raised → Raised
freeze_failed (refusal s) = refusal s
freeze_failed (error e) =
    if is_sandbox_or_pressure e.class || is_os_error e.class
    then refusing "freeze" "observation-execution-unavailable" factory e
    else if is_runtime_error e.class
    then refusing "freeze" "reference-corpus-failed" material e
    else error e

-- The one check that may be settled after emission.
abbrev pub delegation_check : String
delegation_check = "cannot-delegate-to-the-reference"

-- `deferred_execution`; `has_evidence` is whether the hook `execution_evidence` is there.
unfoldable pub deferred_execution : Bool → Battery → List Verdict
deferred_execution has_evidence battery =
    select
      (λ v. has_evidence && (str_eq v.check delegation_check && outcome_eq v.outcome inconclusive))
      battery.verdicts

abbrev pub is_among : List Verdict → Verdict → Bool
is_among vs v = any (λ x. verdict_eq x v) vs

abbrev pub inconclusive_is_material : List String
inconclusive_is_material = "channels-bite" ∷ []

-- Whose fault a non-empty list of failures is.
unfoldable pub evidence_fault : List Verdict → Fault
evidence_fault failed =
    let undecided = select (λ v. outcome_eq v.outcome inconclusive) failed in
    let ours = select (λ v. not (any (λ n. str_eq n v.check) inconclusive_is_material)) undecided in
    if length ours == length failed then factory else material

abbrev refuse_failures : List Verdict → Result (Unit {0})
refuse_failures [] = ok tt
refuse_failures (v ∷ vs) =
    refuse "evidence" v.check (evidence_fault (v ∷ vs)) (join "; " (map (λ x. x.detail) (v ∷ vs)))

-- The failures that are not deferred.
unfoldable pub standing_failures : List Verdict → Battery → List Verdict
unfolding failures
standing_failures deferred battery = select (λ v. not (is_among deferred v)) (failures battery)

unfoldable pub check_battery : List Verdict → Battery → Result (Unit {0})
unfolding standing_failures evidence_fault
check_battery deferred battery = refuse_failures (standing_failures deferred battery)

-- The verdicts that the seam added while it emitted.
unfoldable pub check_late : List Verdict → Result (Unit {0})
check_late [] = ok tt
check_late (v ∷ vs) =
    let rest = check_late vs in
    if not (verdict_ok v)
    then refuse "emit" ("emitted-task-failed-" <> v.check) factory v.detail
    else rest

unfoldable pub check_quality : List String → Result (Unit {0})
check_quality errors =
    if not (is_nil errors)
    then refuse "emit" "deterministic-quality-failed" factory (join "; " (map lit errors))
    else ok tt

unfoldable pub replay_failed : Raised → Raised
replay_failed (refusal s) = refusal s
replay_failed (error e) =
    if is_os_error e.class
    then refusing "emit" "replay-transport-failed" factory e
    else if is_runtime_error e.class
    then refusing "emit" "package-reference-replay-failed" factory e
    else error e

unfoldable pub check_replay : Verdict → Result (Unit {0})
check_replay v =
    if not (verdict_ok v)
    then refuse "emit" "package-does-not-reproduce-itself" factory v.detail
    else ok tt

unfoldable pub check_execution : Verdict → Result (Unit {0})
check_execution v =
    if not (str_eq v.check delegation_check) || not (outcome_eq v.outcome holds)
    then refuse "emit" "execution-isolation-unverified" factory v.detail
    else ok tt

unfoldable pub check_resolved : Battery → Result (Unit {0})
check_resolved battery =
    if not (battery_ok battery)
    then refuse "emit" "unresolved-evidence" factory
        (lit "not every required check was established")
    else ok tt

unfoldable pub image_failed : Raised → Raised
image_failed (refusal s) = refusal s
image_failed (error e) =
    if is_os_error e.class then refusing "emit" "in-image-transport-failed" factory e else error e

unfoldable pub check_image : Verdict → Result (Unit {0})
check_image v =
    if not (outcome_eq v.outcome holds)
    then refuse "emit" "does-not-reproduce-in-its-own-image" factory v.detail
    else ok tt
