-- ===== src/Call/Battery.antt =====
-- The scores and the battery of frf/observe/call/stages.py. What a subject answered for the graded
-- probes, in their order, is an argument.
use frontier_refactor_factor.Prelude.{
  ℕ, zero, suc, ◌+◌, String, Bool, true, false, not, ◌&&◌, ◌||◌, Option, none, some, List, [], ◌∷◌,
  if◌then◌else◌, ◌==◌, find, str_eq,
}
use frontier_refactor_factor.Evidence.{Battery, record_verdict}
use frontier_refactor_factor.Evidence.Checks.{
  ceiling, floor, channels_bite, points_are_about_the_subject, cannot_delegate_to_the_reference,
}
use frontier_refactor_factor.Compare.{Value, null, integer, text, compare, Policy, Units}
use frontier_refactor_factor.Call.{Observation, Expectation, graded, digest, same_digest, grade}
use frontier_refactor_factor.Call.Corpus.{Corpus, is_given}

abbrev pub Arguments : Type 0
Arguments = List Value

-- `args[0] if constant == "echo" and args else constant`
abbrev pub trivial_answer : String → Arguments → Value
trivial_answer kind args =
    if str_eq kind "returns-null"
    then null
    else if str_eq kind "returns-zero"
    then integer false 0
    else elim args [ [] ↦ text "echo" | a ∷ rest ↦ a ]

abbrev pub trivial : List String
trivial = "returns-null" ∷ "returns-zero" ∷ "echoes-the-input" ∷ []

-- the arguments of a probe; those of a graded one are always there
abbrev pub arguments_of : Corpus Arguments → Expectation → Arguments
arguments_of corpus e = elim (find e.probe_id corpus.inputs) [ none ↦ [] | some args ↦ args ]

-- What trying one mutant answers: what it returned for the graded probes, or the TypeError of an
-- observer that offers only one.
pub data Attempt : Type 0 where
  answers : List Observation → Attempt
  type_error : Attempt

module _ (sha : String → String) (dumps : Bool → Value → String → String) where
  -- `_grade`, without its reason
  unfoldable pub marks : Corpus Arguments → Expectation → Observation → ℕ × ℕ
  unfolding grade
  marks corpus e answer =
      let (got, want, reason) =
        grade sha dumps corpus.numeric (find e.probe_id corpus.reference_values) e answer in
      (got, want)

  unfoldable pub trivial_from : Corpus Arguments → String → List Expectation → ℕ × ℕ
  unfolding marks
  trivial_from corpus kind [] = (0, 0)
  trivial_from corpus kind (e ∷ es) =
      let (got, want) =
        marks corpus e
          (record { ok = true; value = trivial_answer kind (arguments_of corpus e); error = "" }) in
      let (passed, total) = trivial_from corpus kind es in (got + passed, want + total)

  -- `_score_trivial`
  unfoldable pub score_trivial : Corpus Arguments → String → ℕ × ℕ
  unfolding trivial_from
  score_trivial corpus kind = trivial_from corpus kind corpus.expectations

  unfoldable pub reference_marks : Corpus Arguments → Expectation → Observation → ℕ × ℕ
  unfolding marks
  reference_marks corpus e answer =
      if is_given corpus.numeric && not (same_digest sha dumps e answer)
      then (0, (if graded e then 1 else 0))
      else marks corpus e answer

  -- `zip(corpus.expectations, actual)`
  unfoldable pub reference_from : Corpus Arguments → List Expectation → List Observation → ℕ × ℕ
  unfolding reference_marks
  reference_from corpus [] actual = (0, 0)
  reference_from corpus (e ∷ es) [] = (0, 0)
  reference_from corpus (e ∷ es) (answer ∷ actual) =
      let (got, want) = reference_marks corpus e answer in
      let (passed, total) = reference_from corpus es actual in (got + passed, want + total)

  -- `_score_reference`
  unfoldable pub score_reference : Corpus Arguments → List Observation → ℕ × ℕ
  unfolding reference_from
  score_reference corpus actual = reference_from corpus corpus.expectations actual

  abbrev pub differs : Option (Policy × Units) → Option Observation → Observation → Bool
  differs none reference answer = true
  differs (some p) none answer = true
  differs (some (policy, units)) (some reference) answer =
      if reference.ok && answer.ok
      then not (compare policy units reference.value answer.value)
      else true

  -- `_changed`
  unfoldable pub changed : Corpus Arguments → Expectation → Observation → Bool
  unfolding digest compare
  changed corpus e answer =
      if same_digest sha dumps e answer
      then false
      else differs corpus.numeric (find e.probe_id corpus.reference_values) answer

  -- (diverged, caught) of one mutant
  unfoldable pub compare_answers :
      Corpus Arguments → List Expectation → List Observation → Bool × Bool
  unfolding marks changed
  compare_answers corpus [] actual = (false, false)
  compare_answers corpus (e ∷ es) [] = (false, false)
  compare_answers corpus (e ∷ es) (answer ∷ actual) =
      let (got, want) = marks corpus e answer in
      let (diverged, caught) = compare_answers corpus es actual in
      (changed corpus e answer || diverged, not (got == want) || caught)

  -- What an attempt concludes, given what the later ones do. `only` are the answers of the one mutant
  -- of an observer that takes no attempt.
  abbrev pub after_attempt :
      Corpus Arguments → List Observation → Bool × Bool → Attempt → Bool × Bool
  after_attempt corpus only rest type_error = compare_answers corpus corpus.expectations only
  after_attempt corpus only rest (answers actual) =
      let here = compare_answers corpus corpus.expectations actual in if here.0 then here else rest

  -- The loop of `_perturb`, from an attempt on, with as many as are left.
  unfoldable pub perturb_from :
      Corpus Arguments → (ℕ → Attempt) → List Observation → ℕ → ℕ → Bool × Bool
  unfolding compare_answers
  perturb_from corpus mutant only i zero = (false, false)
  perturb_from corpus mutant only i (suc n) =
      let rest = perturb_from corpus mutant only (suc i) n in
      after_attempt corpus only rest (mutant i)

  -- `_perturb`, with MUTATION_ATTEMPTS
  unfoldable pub perturb : Corpus Arguments → (ℕ → Attempt) → List Observation → Bool × Bool
  unfolding perturb_from
  perturb corpus mutant only = perturb_from corpus mutant only 0 4

  unfoldable pub battery :
      List Observation
      → (ℕ → Attempt)
      → List Observation
      → List String
      → Bool
      → Corpus Arguments
      → Battery
  unfolding score_reference score_trivial perturb
  battery reference mutant only forbidden isolated corpus =
      let none_yet : Battery = record { verdicts = [] } in
      let b1 = record_verdict none_yet (ceiling (score_reference corpus reference)) in
      let b2 = record_verdict b1 (floor (score_trivial corpus) trivial) in
      let b3 =
        record_verdict b2 (channels_bite (λ channel. perturb corpus mutant only) ("value" ∷ [])) in
      let b4 = record_verdict b3 (points_are_about_the_subject (0, 0) false) in
      record_verdict b4 (cannot_delegate_to_the_reference forbidden isolated)
