-- ===== src/Pipeline/Laws/Accepted.antt =====
-- What the pipeline accepts: specifications, corpora and timed workloads.
use frontier_refactor_factor.Prelude.{
  ℕ, ◌*◌, ◌≡◌, ◌↔◌, ap, sym, subst, String, Bool, true, false, not, ◌&&◌, ◌||◌, none, some, List,
  arith, is_nil, leb, ◌==◌,
}
use frontier_refactor_factor.Exec.{Result, ok, err}
use frontier_refactor_factor.Pipeline.Spec.{
  TaskForm, inplace, cross_language, Spec, Specified, a_spec, not_a_spec, normal, same_codes,
  check_spec,
}
use frontier_refactor_factor.Pipeline.Corpus.{Report, check_corpus, check_adequate, check_timing}

-- The languages agree with the form of the task.
abbrev pub form_agrees : TaskForm → List ℕ → List ℕ → Bool
form_agrees cross_language source target = not (is_nil target) && not (same_codes target source)
form_agrees inplace source target = is_nil target || same_codes target source

abbrev pub is_acceptable : Spec → Bool
is_acceptable s =
    form_agrees s.task_form (normal s.language) (normal s.target_language) && not (is_nil s.invoke)

abbrev pub returns {ℓ} : {A : Type ℓ} → Result A → Bool
returns (ok a) = true
returns (err e) = false

acceptable-check_spec :
    (scale_class : String) (s spec : Spec)
    → check_spec scale_class (a_spec s) ≡ ok spec
    → (s ≡ spec) × (is_acceptable s ≡ true)
unfolding check_spec
acceptable-check_spec scale_class s spec h = ground arith

check_spec-acceptable :
    (scale_class : String) (s : Spec)
    → is_acceptable s ≡ true
    → check_spec scale_class (a_spec s) ≡ ok s
unfolding check_spec
check_spec-acceptable scale_class s h = ground arith

a_spec-injective : (s t : Spec) → a_spec s ≡ a_spec t → s ≡ t
a_spec-injective s t e = cc

-- A specification is accepted exactly when a cross-language task names another language than its
-- own, an in-place task names none but its own, and there is a way to start the subject; what is
-- accepted is the specification itself, and nothing that is no specification is.
pub check_spec_exact :
    (scale_class : String) (answer : Specified) (spec : Spec)
    → (check_spec scale_class answer ≡ ok spec)
      ↔ ((answer ≡ a_spec spec) × (is_acceptable spec ≡ true))
check_spec_exact scale_class (a_spec s) spec = (
  λ h.
      let (e, a) = acceptable-check_spec scale_class s spec h in
      (ap a_spec e, subst (λ t. is_acceptable t ≡ true) e a),
  λ (e, a).
      subst (λ t. check_spec scale_class (a_spec t) ≡ ok spec) (sym (a_spec-injective s spec e))
        (check_spec-acceptable scale_class spec a),
)
check_spec_exact scale_class (not_a_spec n) spec = (λ h. unfold check_spec in cc, λ (e, a). cc)

-- Eight distinct answers, and 15 % of the points, where they were counted.
abbrev pub has_diverse_answers : Report → Bool
has_diverse_answers report = elim report.distinct_answers [
  | none ↦ true
  | some distinct ↦
      report.graded_points == 0
      || leb 8 distinct && leb (15 * report.graded_points) (100 * distinct)
]

-- A frozen corpus passes exactly when it is usable, has five probes and forty graded points, and,
-- where the rule on answers is enforced, has eight distinct answers that are 15 % of its points,
-- if they were counted.
pub check_corpus_exact :
    (enforce : Bool) (report : Report)
    → returns (check_corpus enforce report) ≡ (
        report.usable
        && (leb 5 report.probes
            && (leb 40 report.graded_points && (not enforce || has_diverse_answers report))))
unfolding check_corpus
check_corpus_exact enforce report = ground arith

abbrev pub has_heavy_workload : Report → Bool
has_heavy_workload report =
    elim report.timed [ none ↦ true | some timed ↦ not (is_nil timed) ]
    && (elim report.timed_seconds [ none ↦ true | some t ↦ leb 10_000_000 t ])

-- The adequacy and timing gates pass exactly when the repaired corpus is usable, its timed probes,
-- where it has a field for them, are not empty, and the time measured for the heaviest, where one
-- was measured, is ten microseconds at least.
pub check_timing_exact :
    (report : Report)
    → (returns (check_adequate report) && returns (check_timing report))
      ≡ (report.usable && has_heavy_workload report)
unfolding check_adequate check_timing
check_timing_exact report = ground arith
