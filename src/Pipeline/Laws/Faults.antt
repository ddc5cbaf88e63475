-- ===== src/Pipeline/Laws/Faults.antt =====
-- Whose fault a refusal is.
use frontier_refactor_factor.Prelude.{
  not, ◌||◌, ◌&&◌, str_eq, ℕ, ◌≤◌, ◌≡◌, refl, Bool, true, false, List, [], ◌∷◌, arith, ◌==◌,
  if◌then◌else◌, any, all, select, length, has_text,
}
use frontier_refactor_factor.Evidence.{inconclusive, Verdict, outcome_eq}
use frontier_refactor_factor.Exec.{
  class_name, ok, err, Exn, is_exception, is_sandbox_or_pressure, is_timeout, is_os_error,
  is_value_error, is_runtime_error, material, factory, Raised, refusal, error, Result,
}
use frontier_refactor_factor.Pipeline.Spec.{Candidate}
use frontier_refactor_factor.Pipeline.Hooks.{Scale, Hooks, Delivery}
use frontier_refactor_factor.Pipeline.Gates.{
  build_failed, probes_failed, freeze_failed, replay_failed, image_failed, evidence_fault,
  inconclusive_is_material, our_generator_bugs,
}
use frontier_refactor_factor.Pipeline.Run.{
  Built, emitted, refused, Emitted, run, conclude, build_one,
}

-- An inconclusive check that says nothing of the subject.
abbrev pub is_ours : Verdict → Bool
is_ours v =
    outcome_eq v.outcome inconclusive && not (any (λ n. str_eq n v.check) inconclusive_is_material)

length-select-select {ℓ} :
    {A : Type ℓ} (p q : A → Bool) (xs : List A)
    → (length (select q (select p xs)) ≤ length xs)
      × ((length (select q (select p xs)) == length xs) ≡ all (λ x. p x && q x) xs)
length-select-select p q [] = (omega arith, refl)
length-select-select p q (x ∷ xs) =
    let (le, same) = length-select-select p q xs in (ground arith, ground arith)

-- A battery that stops a candidate charges the factory exactly when every failure that stands is an
-- inconclusive check other than E3; one check that failed, or an E3 without a perturbation that
-- bites, makes it the material's.
pub evidence_fault_exact :
    (failed : List Verdict)
    → evidence_fault failed ≡ (if all is_ours failed then factory else material)
unfolding evidence_fault
evidence_fault_exact failed =
    rw
      ((length-select-select (λ v. outcome_eq v.outcome inconclusive)
        (λ v. not (any (λ n. str_eq n v.check) inconclusive_is_material)) failed).1)
      refl

-- `build_one` answers that raise with a refusal for which the factory is to blame.
abbrev is_charged : Result Built → Bool
is_charged (ok (refused r)) = elim r.fault [ factory ↦ true | material ↦ false ]
is_charged (ok (emitted e)) = false
is_charged (err x) = false

abbrev pub blames_us : Candidate → Raised → Bool
blames_us candidate x = is_charged (conclude candidate (err x))

-- A drawing failure whose text names a bug of the generator.
abbrev pub is_generator_bug : Exn → Bool
is_generator_bug e = is_value_error e.class && any (λ mark. has_text e.text mark) our_generator_bugs

-- What no handler of a stage knows: the factory is charged, but for a failure of the subject.
abbrev pub is_unclassified : Exn → Bool
is_unclassified e = is_exception e.class && not (str_eq (class_name e.class) "SubjectFailed")

-- Exactly these raises end as a refusal that is charged to the factory. At the build: a sandbox
-- that fails, a machine under pressure, a timeout. When probes are drawn: the first two, an
-- `OSError`, and a `ValueError` whose text names a bug of the generator. At the freeze: the first
-- two and an `OSError`. At the replay of the emitted task, an `OSError` or a `RuntimeError`. In the
-- shipped image, an `OSError`. And at each of them every other `Exception` that its handler does
-- not charge to the material, unless it is the failure of a subject.
pub faults_exact :
    (candidate : Candidate) (e : Exn)
    → (blames_us candidate (build_failed (error e)) ≡ (
        is_sandbox_or_pressure e.class
        || is_timeout e.class
        || (not (is_runtime_error e.class || is_os_error e.class) && is_unclassified e)))
      × (blames_us candidate (probes_failed (error e)) ≡ (
          is_sandbox_or_pressure e.class
          || is_os_error e.class
          || (is_generator_bug e
              || (not (is_value_error e.class || is_runtime_error e.class) && is_unclassified e))))
      × (blames_us candidate (freeze_failed (error e)) ≡ (
          is_sandbox_or_pressure e.class
          || is_os_error e.class
          || (not (is_runtime_error e.class) && is_unclassified e)))
      × (blames_us candidate (replay_failed (error e))
          ≡ (is_os_error e.class || is_runtime_error e.class || is_unclassified e))
      × (blames_us candidate (image_failed (error e)) ≡ (is_os_error e.class || is_unclassified e))
unfolding build_failed probes_failed freeze_failed replay_failed image_failed conclude
faults_exact candidate e = (ground arith, ground arith, ground arith, ground arith, ground arith)

conclude-eq-err :
    (candidate : Candidate) (r : Result Emitted) (x : Raised)
    → conclude candidate r ≡ err x
    → (e : Exn) × (x ≡ error e) × (is_exception e.class ≡ false)
unfolding conclude
conclude-eq-err candidate (ok t) x h = cc
conclude-eq-err candidate (err (refusal s)) x h = cc
conclude-eq-err candidate (err (error e)) x h = (e, ground arith, ground arith)

module _ {W Source Observer : Type 0} (scale : Scale W Source Observer)
    (hooks : Hooks W Source Observer) (delivery : Delivery W) (enforce : Bool) where
  -- One candidate never ends a batch: with two freeze runs or more, whatever the hooks raise, the
  -- call returns a refusal or a task, or passes on an exception that is no `Exception`, as Ctrl-C is.
  pub build_one-raises :
      (candidate : Candidate) (freeze_runs : ℕ) (w : W) (x : Raised)
      → 2 ≤ freeze_runs
      → (build_one scale hooks delivery enforce candidate freeze_runs w).0 ≡ err x
      → (e : Exn) × (x ≡ error e) × (is_exception e.class ≡ false)
  unfolding build_one
  build_one-raises candidate freeze_runs w x h e =
      let (r, w') = run scale hooks delivery enforce candidate freeze_runs w in
      conclude-eq-err candidate r x (ground arith)
