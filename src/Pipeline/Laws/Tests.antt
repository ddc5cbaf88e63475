-- ===== src/Pipeline/Laws/Tests.antt =====
-- A run over a small world, which counts the hooks that were called, and the theorems at it.
use frontier_refactor_factor.Prelude.{
  ℕ, suc, ◌≡◌, refl, ap, message_eq, true, false, none, some, [], ◌∷◌, arith, lit,
}
use frontier_refactor_factor.Evidence.{holds, inconclusive, Verdict, record_verdict, battery_ok}
use frontier_refactor_factor.Evidence.Checks.{
  package_reproduces_itself, reproduces_in_its_own_image,
}
use frontier_refactor_factor.Exec.{
  Exn, keyboard_interrupt, sandbox_error, error, ok, err, Exec, pure, is_exception,
}
use frontier_refactor_factor.Pipeline.Spec.{
  cross_language, Candidate, Spec, a_spec, specify, normal,
}
use frontier_refactor_factor.Pipeline.Corpus.{Report, check_corpus, check_adequate, check_timing}
use frontier_refactor_factor.Pipeline.Hooks.{Scale, Hooks, Delivery}
use frontier_refactor_factor.Pipeline.Gates.{
  build_failed, probes_failed, freeze_failed, replay_failed, image_failed, deferred_execution,
  check_battery, check_late, check_quality, check_replay, check_execution, check_resolved,
  check_image, delegation_check,
}
use frontier_refactor_factor.Pipeline.Run.{Emitted, emitted, build_one}
use frontier_refactor_factor.Pipeline.Laws.Accepted.{returns, check_corpus_exact}
use frontier_refactor_factor.Pipeline.Laws.Faults.{blames_us, faults_exact, build_one-raises}
use frontier_refactor_factor.Pipeline.Laws.Emission.{Earned, build_one-Earned}

abbrev candidate : Candidate
candidate = record { identity = "r#f"; scale = "module"; language = "python"; source = "github" }

abbrev spec : Spec
spec = record {
  name = "f";
  scale = "module";
  language = "python";
  description = "";
  invoke = "python" ∷ "f.py" ∷ [];
  target_language = " Rust ";
  task_form = cross_language;
}

abbrev corpus : Report
corpus = record {
  usable = true;
  unusable_reason = "";
  unusable_is_ours = false;
  unusable_is_timeout = false;
  discarded = 1;
  drawn = 58;
  probes = 57;
  graded_points = 57;
  distinct_answers = some 54;
  timed = some ("p0" ∷ []);
  timed_seconds = some 50_000_000;
  adequacy_note = "";
}

-- Every call of a hook counts one.
abbrev answer : {A : Type 0} → A → Exec ℕ A
answer a n = (ok a, suc n)

abbrev scale : Scale ℕ (Unit {0}) (Unit {0})
scale = record {
  specifier = record {
    scale_class = "ModuleScale";
    task_form = some cross_language;
    accepts_task_form = true;
    specify_with = λ c f. answer (a_spec spec);
  };
  probes = λ s. answer tt;
  refined_spec = λ n. none;
  observe = answer tt;
  backend = "e2b";
}

abbrev ceiling_held : Verdict
ceiling_held = record { check = "ceiling"; outcome = holds; detail = lit "" }

abbrev delegation : Verdict
delegation = record { check = delegation_check; outcome = inconclusive; detail = lit "" }

abbrev isolation : Verdict
isolation = record { check = delegation_check; outcome = holds; detail = lit "" }

abbrev hooks : Hooks ℕ (Unit {0}) (Unit {0})
hooks = record {
  build = λ s. answer tt;
  freeze = λ s o p n. answer corpus;
  adequacy = λ s o r. answer r;
  battery = λ s o r. answer (record { verdicts = ceiling_held ∷ delegation ∷ [] });
  emit = λ s r b. answer ("out/f", b);
  replay = λ p. answer (57, 57);
  replay_in_image =
      some (λ p. answer (record { reproduced = true; stage = ""; detail = ""; total = 57 }));
  execution_evidence = some (λ p s. answer isolation);
}

abbrev delivery : Delivery ℕ
delivery = record {
  deterministic_quality = λ p. answer [];
  purge_task_bytecode = λ p. answer tt;
  build_attestation = λ s r b c. pure "{}";
  write_attestation = λ p a. answer tt;
}

abbrev in_image : Verdict
in_image = record {
  check = "reproduces-in-its-own-image";
  outcome = holds;
  detail = lit "the shipped image reproduces the task";
}

abbrev task : Emitted
unfolding package_reproduces_itself
task = record {
  name = "f";
  path = "out/f";
  scale = "module";
  graded_points = 57;
  probes = 57;
  discarded = 1;
  drawn = 58;
  source_language = "python";
  target_language = " Rust ";
  battery = ceiling_held ∷ package_reproduces_itself (57, 57) ∷ isolation ∷ in_image ∷ [];
}

-- The deferred verdict is gone, and fourteen calls were made.
emits : build_one scale hooks delivery true candidate 5 0 ≡ (ok (emitted task), 14)
unfolding build_one specify normal check_corpus check_adequate check_timing check_battery
    deferred_execution check_late check_quality check_replay check_execution check_resolved
    check_image package_reproduces_itself reproduces_in_its_own_image battery_ok record_verdict
    message_eq
emits = refl

build_one-Earned_example : Earned scale hooks delivery true candidate 5 0 task
build_one-Earned_example =
    build_one-Earned scale hooks delivery true candidate 5 0 task (ap (λ r. r.0) emits)

-- The operator stops the batch while the reference is built.
abbrev interrupt : Exn
interrupt = record { class = keyboard_interrupt; text = "" }

abbrev stopped : Hooks ℕ (Unit {0}) (Unit {0})
stopped = record hooks { build = λ s n. (err (error interrupt), n) }

stops : (build_one scale stopped delivery true candidate 5 0).0 ≡ err (error interrupt)
unfolding build_one specify normal build_failed
stops = refl

build_one-raises_example : (e : Exn) × (error interrupt ≡ error e) × (is_exception e.class ≡ false)
build_one-raises_example =
    build_one-raises scale stopped delivery true candidate 5 0 (error interrupt) (omega arith) stops

check_corpus_exact_example : returns (check_corpus true corpus) ≡ true
check_corpus_exact_example = check_corpus_exact true corpus

abbrev lost : Exn
lost = record { class = sandbox_error; text = "gone" }

faults_exact_example :
    (blames_us candidate (build_failed (error lost)) ≡ true)
    × (blames_us candidate (probes_failed (error lost)) ≡ true)
    × (blames_us candidate (freeze_failed (error lost)) ≡ true)
    × (blames_us candidate (replay_failed (error lost)) ≡ true)
    × (blames_us candidate (image_failed (error lost)) ≡ true)
faults_exact_example = faults_exact candidate lost
