-- ===== src/Pipeline/Corpus.antt =====
-- `_check_corpus`, `answer_diversity` and the timing and adequacy gates of frf/core/pipeline.py:
-- what a frozen corpus must be before anything is built on it.
use frontier_refactor_factor.Prelude.{
  ℕ, ◌*◌, String, Bool, not, ◌&&◌, ◌||◌, Option, none, some, List, [], ◌∷◌, ltb, leb, ◌==◌,
  if◌then◌else◌, is_nil, str_eq, num, share, Message, lit, fmt,
}
use frontier_refactor_factor.Exec.{material, factory, Result, ok, refuse}

abbrev pub min_probes : ℕ
min_probes = 5

abbrev pub min_graded_points : ℕ
min_graded_points = 40

abbrev pub min_distinct_answers : ℕ
min_distinct_answers = 8

-- A measured time is a whole number of picoseconds; the floor is ten microseconds.
abbrev pub min_timed : ℕ
min_timed = 10_000_000

-- What the pipeline reads of a corpus. An attribute that a seam need not have is an option.
pub record Report : Type 0 where
  pub usable : Bool
  pub unusable_reason : String
  pub unusable_is_ours : Bool
  pub unusable_is_timeout : Bool
  -- how many of how many probes were discarded
  pub discarded : ℕ
  pub drawn : ℕ
  pub probes : ℕ
  pub graded_points : ℕ
  pub distinct_answers : Option ℕ
  pub timed : Option (List String)
  pub timed_seconds : Option ℕ
  pub adequacy_note : String

-- `given or text`
abbrev or_text : String → Message → Message
or_text given text = if str_eq given "" then text else lit given

pub data Diversity : Type 0 where
  unmeasured : Diversity
  -- distinct answers, graded points, whether that is enough, and whether it is enforced
  measured : ℕ → ℕ → Bool → Bool → Diversity

-- The ratio `distinct / points` is an exact fraction, and the floor for it is 15 / 100.
unfoldable pub answer_diversity : Bool → Report → Diversity
answer_diversity enforce report = elim report.distinct_answers [
  | none ↦ unmeasured
  | some distinct ↦
      if report.graded_points == 0
      then unmeasured
      else measured distinct report.graded_points
          (leb min_distinct_answers distinct && leb (15 * report.graded_points) (100 * distinct))
          enforce
]

abbrev check_diversity : Diversity → Result (Unit {0})
check_diversity unmeasured = ok tt
check_diversity (measured distinct points enough enforced) =
    if enough || not enforced
    then ok tt
    else refuse "freeze" "answers-do-not-differ" material (
        fmt
          "%d distinct answer(s) across %d graded point(s) (%.0f%%); a corpus this uniform cannot tell a correct submission from one returning the common answer (need >= 8 and >= 15%%)"
          (num distinct ∷ num points ∷ share (100 * distinct) points ∷ []))

unfoldable pub check_answer_diversity : Bool → Report → Result (Unit {0})
unfolding answer_diversity
check_answer_diversity enforce report = check_diversity (answer_diversity enforce report)

unfoldable pub check_corpus : Bool → Report → Result (Unit {0})
unfolding check_answer_diversity
check_corpus enforce report =
    if not report.usable
    then (if report.unusable_is_ours
        then refuse "freeze" "subject-unreachable" factory
            (or_text report.unusable_reason (lit "the subject could not be staged in a sandbox"))
        else if report.unusable_is_timeout
        then refuse "freeze" "too-slow-to-freeze" material
            (or_text report.unusable_reason (lit "the freeze did not finish inside its budget"))
        else refuse "freeze" "will-not-repeat-itself" material (
            or_text report.unusable_reason (
              fmt
                "%.0f%% of probes were discarded because the reference did not reproduce them; what survives was selected by luck rather than by being representative"
                (share (100 * report.discarded) report.drawn ∷ []))))
    else if ltb report.probes min_probes || ltb report.graded_points min_graded_points
    then refuse "freeze" "corpus-too-thin" material (
        fmt
          "%d probe(s) and %d graded point(s); a corpus this small cannot tell a correct submission from a lucky one (need >= %d and >= %d)"
          (num report.probes
            ∷ num report.graded_points
            ∷ num min_probes
            ∷ num min_graded_points
            ∷ []))
    else check_answer_diversity enforce report

-- The verdict of the adequacy stage, acted on.
unfoldable pub check_adequate : Report → Result (Unit {0})
check_adequate report =
    if not report.usable
    then refuse "adequacy" "corpus-does-not-measure-the-subject" material
        (or_text report.adequacy_note (lit "the corpus is inadequate after repair"))
    else ok tt

abbrev check_timed : Option (List String) → Result (Unit {0}) → Result (Unit {0})
check_timed none next = next
check_timed (some timed) next =
    if is_nil timed
    then refuse "timing" "no-timed-workload" material (
        lit
          "the corpus has no workload heavy enough to measure; this is a performance benchmark, so timing is required")
    else next

abbrev check_timed_seconds : Option ℕ → Result (Unit {0})
check_timed_seconds none = ok tt
check_timed_seconds (some t) =
    if ltb t min_timed
    then refuse "timing" "workload-too-fast-to-measure" material (
        fmt
          "the heaviest timed probe runs in %.2f us, below the %.0f us floor this machine's clock can resolve; a speed score over it would be noise"
          (share t 1_000_000 ∷ num 10 ∷ []))
    else ok tt

-- The two timing gates.
unfoldable pub check_timing : Report → Result (Unit {0})
check_timing report = check_timed report.timed (check_timed_seconds report.timed_seconds)
