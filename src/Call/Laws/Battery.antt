-- ===== src/Call/Laws/Battery.antt =====
-- The battery of the call seam.
use frontier_refactor_factor.Prelude.{
  ℕ, zero, suc, Option, some, find, ◌≡◌, refl, String, Bool, true, false, not, ◌&&◌, ◌||◌, none,
  List, [], ◌∷◌, if◌then◌else◌, ◌==◌, ltb, arith, is_nil, All,
}
use frontier_refactor_factor.Evidence.{verdict_ok, battery_ok, record_verdict}
use frontier_refactor_factor.Evidence.Checks.{ceiling, floor}
use frontier_refactor_factor.Evidence.Laws.Channels.{channels_bite_lem}
use frontier_refactor_factor.Evidence.Laws.Exact.{ceiling_ok, points_ok, delegate_ok}
use frontier_refactor_factor.Compare.{Value, Policy, Units}
use frontier_refactor_factor.Call.{
  Observation, Expectation, graded, same_digest, grade, grade_numeric, grade_exact,
}
use frontier_refactor_factor.Call.Corpus.{Corpus, points}
use frontier_refactor_factor.Call.Battery.{
  Arguments, differs, Attempt, answers, type_error, marks, reference_marks, reference_from,
  score_reference, changed, compare_answers, after_attempt, perturb_from, perturb, battery,
  score_trivial, trivial,
}

either_noticed :
    (a b c d : Bool)
    → (a ≡ true → b ≡ true)
    → (c ≡ true → d ≡ true)
    → (a || c) ≡ true
    → (b || d) ≡ true
either_noticed true b c d h k e = ground (arith, h refl)
either_noticed false b c d h k e = ground (arith, k e)

module _ (sha : String → String) (dumps : Bool → Value → String → String) where
  -- Under a policy or without: an answer that differs loses its point.
  differs-marks :
      (numeric : Option (Policy × Units)) (reference : Option Observation) (e : Expectation)
      (a : Observation)
      → graded e ≡ true
      → same_digest sha dumps e a ≡ false
      → differs sha dumps numeric reference a ≡ true
      → ((grade sha dumps numeric reference e a).0 ≡ 0)
        × ((grade sha dumps numeric reference e a).1 ≡ 1)
  unfolding grade grade_numeric grade_exact
  differs-marks none reference e a g n d = (ground (arith, g, n), ground (arith, g, n))
  differs-marks (some (policy, units)) none e a g n d = (ground (arith, g), ground (arith, g))
  differs-marks (some (policy, units)) (some r) e a g n d =
      (ground (arith, g, n, d), ground (arith, g, n, d))

  module _ (corpus : Corpus Arguments) where
    changed-marks :
        (e : Expectation) (a : Observation)
        → graded e ≡ true
        → changed sha dumps corpus e a ≡ true
        → not ((marks sha dumps corpus e a).0 == (marks sha dumps corpus e a).1) ≡ true
    unfolding changed marks
    changed-marks e a g c =
        let differ = differs-marks corpus.numeric (find e.probe_id corpus.reference_values) e a g in
        let n : same_digest sha dumps e a ≡ false = ground (arith, c) in
        let d : differs sha dumps corpus.numeric (find e.probe_id corpus.reference_values) a
            ≡ true =
          ground (arith, c, n) in
        let (lost, worth) = differ n d in rw lost (rw worth refl)

    answers_noticed :
        (es : List Expectation) (actual : List Observation)
        → All (λ e. graded e ≡ true) es
        → (compare_answers sha dumps corpus es actual).0 ≡ true
        → (compare_answers sha dumps corpus es actual).1 ≡ true
    unfolding compare_answers
    answers_noticed [] actual g h = h
    answers_noticed (e ∷ es) [] g h = h
    answers_noticed (e ∷ es) (a ∷ actual) (g, gs) h =
        either_noticed (changed sha dumps corpus e a) _
          (compare_answers sha dumps corpus es actual).0
          (compare_answers sha dumps corpus es actual).1 (changed-marks e a g)
          (answers_noticed es actual gs) h

    module _ (all_graded : All (λ e. graded e ≡ true) corpus.expectations) where
      attempt_noticed :
          (only : List Observation) (rest : Bool × Bool) (m : Attempt)
          → (rest.0 ≡ true → rest.1 ≡ true)
          → (after_attempt sha dumps corpus only rest m).0 ≡ true
          → (after_attempt sha dumps corpus only rest m).1 ≡ true
      attempt_noticed only rest type_error h k =
          answers_noticed corpus.expectations only all_graded k
      attempt_noticed only rest (answers actual) h k =
          ground (arith, h, k, answers_noticed corpus.expectations actual all_graded)

      attempts_noticed :
          (mutant : ℕ → Attempt) (only : List Observation) (i n : ℕ)
          → (perturb_from sha dumps corpus mutant only i n).0 ≡ true
          → (perturb_from sha dumps corpus mutant only i n).1 ≡ true
      unfolding perturb_from
      attempts_noticed mutant only i zero h = h
      attempts_noticed mutant only i (suc n) h =
          attempt_noticed only (perturb_from sha dumps corpus mutant only (suc i) n) (mutant i)
            (attempts_noticed mutant only (suc i) n) h

      perturb_noticed :
          (mutant : ℕ → Attempt) (only : List Observation)
          → (perturb sha dumps corpus mutant only).0 ≡ true
          → (perturb sha dumps corpus mutant only).1 ≡ true
      unfolding perturb
      perturb_noticed mutant only h = attempts_noticed mutant only 0 4 h

      -- For a corpus all of whose expectations are graded, as a freeze makes it, with a numerical
      -- policy or without: the battery is passed exactly if the reference, called again, has full
      -- marks of a positive total, no trivial submission makes the floor fail, some mutant was made
      -- to differ on a probe, and nothing forbidden is installed under isolation.
      pub call_battery_exact :
          (reference : List Observation) (mutant : ℕ → Attempt) (only : List Observation)
          (forbidden : List String) (isolated : Bool)
          → let (passed, total) = score_reference sha dumps corpus reference in
            battery_ok (battery sha dumps reference mutant only forbidden isolated corpus) ≡ (
              ltb 0 total
              && passed == total
              && (verdict_ok (floor (score_trivial sha dumps corpus) trivial)
                  && ((perturb sha dumps corpus mutant only).0 && (is_nil forbidden && isolated))))
      unfolding battery battery_ok record_verdict
      call_battery_exact reference mutant only forbidden isolated =
          let p = λ (channel : String). perturb sha dumps corpus mutant only in
          ground (
            arith,
            ceiling_ok (score_reference sha dumps corpus reference),
            channels_bite_lem p ("value" ∷ []),
            perturb_noticed mutant only,
            points_ok (0, 0) false,
            delegate_ok forbidden isolated,
          )

module _ (sha : String → String) (dumps : Bool → Value → String → String)
    (corpus : Corpus Arguments) (exact : corpus.numeric ≡ none) where
  exact_marks :
      (e : Expectation) (a : Observation)
      → (marks sha dumps corpus e a).0 ≡ (if graded e && same_digest sha dumps e a then 1 else 0)
        × ((marks sha dumps corpus e a).1 ≡ (if graded e then 1 else 0))
  unfolding marks grade grade_exact
  exact_marks e a = rw exact (ground arith)

  -- The answers have the digests that are expected, one for each graded probe.
  abbrev pub Again : List Expectation → List Observation → Type 0
  Again [] actual = Unit
  Again (e ∷ es) [] = ⊥
  Again (e ∷ es) (a ∷ actual) = (same_digest sha dumps e a ≡ true) × Again es actual

  reference_full :
      (es : List Expectation) (actual : List Observation)
      → Again es actual
      → ((reference_from sha dumps corpus es actual).0 ≡ points es)
        × ((reference_from sha dumps corpus es actual).1 ≡ points es)
  unfolding reference_from reference_marks
  reference_full [] actual h = (refl, refl)
  reference_full (e ∷ es) [] h = elim h [ ]
  reference_full (e ∷ es) (a ∷ actual) (h, hs) =
      ground (arith, exact, h, exact_marks e a, reference_full es actual hs)

  -- The expected digests make full marks of whatever points there are.
  pub ceiling-Again :
      (actual : List Observation)
      → Again corpus.expectations actual
      → verdict_ok (ceiling (score_reference sha dumps corpus actual))
        ≡ ltb 0 (points corpus.expectations)
  unfolding score_reference
  ceiling-Again actual h =
      let (p, t) = reference_full corpus.expectations actual h in
      ground (arith, ceiling_ok (score_reference sha dumps corpus actual), p, t)
