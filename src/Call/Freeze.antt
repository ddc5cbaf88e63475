-- ===== src/Call/Freeze.antt =====
-- `freeze` of frf/observe/call/stages.py. The clock, the subject and its calls act on the world `W`.
use frontier_refactor_factor.Prelude.{
  ℕ, zero, suc, String, Bool, true, false, Option, none, some, List, [], ◌∷◌, map, if◌then◌else◌,
  lit, clip, cat,
}
use frontier_refactor_factor.Exec.{
  Exec, Result, ok, err, refusal, error, subject_failed, subject_unreachable, ErrorClass, pure,
  ◌>>=◌,
}
use frontier_refactor_factor.Compare.{Value, Policy, Units}
use frontier_refactor_factor.Call.{Observation}
use frontier_refactor_factor.Call.Corpus.{
  Corpus, Observed, append_answer, append_answers, number_inputs, unusable, timed_out, conclude,
}

-- `except SubjectFailed`: whether it is, and whether the subject was never reached
abbrev pub is_mute : ErrorClass → Bool
is_mute subject_failed = true
is_mute subject_unreachable = true
is_mute _ = false

abbrev pub is_ours : ErrorClass → Bool
is_ours subject_unreachable = true
is_ours _ = false

-- A subject that was started. `call_many` answers for the items in their order, if there is one.
pub record Subject (W Args : Type 0) : Type 0 where
  pub call_many : Option (List Args → Exec W (List Observation))
  pub call : Args → Exec W Observation

-- `observer.subject(spec)`, and what leaving its block does
pub record Observer (W Args : Type 0) : Type 0 where
  pub start : Exec W (Subject W Args)
  pub stop : W → W

module _ {W Args : Type 0} (late : Exec W Bool) (observer : Observer W Args) where
  -- The block is left also where its body raises.
  abbrev pub leave : {A : Type 0} → Result A × W → Result A × W
  leave (r, w) = (r, observer.stop w)

  abbrev pub enter :
      {A : Type 0} → Result (Subject W Args) × W → (Subject W Args → Exec W A) → Result A × W
  enter (ok s, w) body = leave (body s w)
  enter (err e, w) body = (err e, w)

  abbrev pub in_block : {A : Type 0} → (Subject W Args → Exec W A) → Exec W A
  in_block body w = enter (observer.start w) body

  -- One probe after the other; `none` is what a deadline that has passed answers.
  unfoldable pub call_each :
      Subject W Args → List (String × Args) → Observed → Exec W (Option Observed)
  unfolding append_answer
  call_each subject [] observed = pure (some observed)
  call_each subject ((pid, a) ∷ items) observed = do
    stop ← late
    if stop
        then pure none
        else (do o ← subject.call a; call_each subject items (append_answer pid o observed))

  unfoldable pub one_run :
      List (String × Args) → Observed → Subject W Args → Exec W (Option Observed)
  unfolding call_each append_answers
  one_run inputs observed subject = elim subject.call_many [
    | none ↦ call_each subject inputs observed
    | some call_many ↦ do
      answers ← call_many (map (λ (pid, a). a) inputs)
      pure (some (append_answers inputs answers observed))
  ]

  unfoldable pub run_all : ℕ → List (String × Args) → Observed → Exec W (Option Observed)
  unfolding one_run
  run_all zero inputs observed = pure (some observed)
  run_all (suc n) inputs observed = do
    stop ← late
    if stop then pure none else (do
      end ← in_block (one_run inputs observed)
      elim end [ none ↦ pure none | some seen ↦ run_all n inputs seen ])

  -- `{probe_id: [] for probe_id in inputs}`
  abbrev pub unobserved : List (String × Args) → Observed
  unobserved = map (λ (pid, a). (pid, []))

  module _ (sha : String → String) (dumps : Bool → Value → String → String) where
    abbrev pub after_runs :
        Option (Policy × Units)
        → List (String × Args)
        → ℕ
        → Result (Option Observed)
        → Result (Corpus Args)
    after_runs numeric inputs seconds (ok none) = ok (timed_out inputs seconds)
    after_runs numeric inputs seconds (ok (some observed)) =
        ok (conclude sha dumps numeric inputs observed)
    after_runs numeric inputs seconds (err (refusal s)) = err (refusal s)
    after_runs numeric inputs seconds (err (error e)) =
        if is_mute e.class
        then ok
            (record (unusable inputs
              (cat (lit "the subject never answered: ") (clip 600 (lit e.text)))) {
                unusable_is_ours = is_ours e.class;
              })
        else err (error e)

    unfoldable pub freeze : Option (Policy × Units) → List Args → ℕ → ℕ → Exec W (Corpus Args)
    unfolding run_all number_inputs conclude
    freeze numeric drawn runs seconds w =
        let inputs = number_inputs 0 drawn in
        let (r, w') = run_all runs inputs (unobserved inputs) w in
        (after_runs numeric inputs seconds r, w')
