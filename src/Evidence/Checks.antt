-- ===== src/Evidence/Checks.antt =====
-- frf/core/evidence.py: the checks E1 to E9. Each takes what its callables answer, so that it stays
-- ignorant of what a task is. The counts of a score are natural numbers, and a share `passed / total`
-- is an exact fraction, compared by its cross products.
use frontier_refactor_factor.Prelude.{
  ℕ, ◌*◌, ◌-◌, String, Bool, not, ◌||◌, ◌⊎◌, inl, inr, Option, none, some, List, [], ◌∷◌, ltb, ◌==◌,
  if◌then◌else◌, length, take, is_nil, any, str_eq, map, num, str, share, Message, lit, fmt, clip,
  cat, join, sorted,
}
use frontier_refactor_factor.Evidence.{Outcome, holds, fails, inconclusive, not_applicable, Verdict}

-- `", ".join(names)`
abbrev names_text : List String → Message
names_text names = join ", " (map lit names)

abbrev verdict : String → Outcome → Message → Verdict
verdict c o d = record { check = c; outcome = o; detail = d }

-- E1
unfoldable pub ceiling : ℕ × ℕ → Verdict
ceiling (passed, total) =
    if total == 0
    then verdict "ceiling" inconclusive
        (lit "nothing was graded, so the reference scoring 'full marks' means nothing")
    else if passed == total
    then verdict "ceiling" holds (fmt "the reference scores %d/%d" (num passed ∷ num total ∷ []))
    else verdict "ceiling" fails (
        fmt
          "the reference scores %d/%d against its own expectations, so no submission could do better"
          (num passed ∷ num total ∷ []))

-- The best trivial submission so far.
pub record Worst : Type 0 where
  pub name : String
  pub passed : ℕ
  pub total : ℕ

-- `share > worst[1]`
abbrev scores_more : ℕ → ℕ → Worst → Bool
scores_more passed total w = ltb (w.passed * total) (passed * w.total)

-- One round of the loop of E2: `inl` is its early return.
unfoldable pub try_trivial : (String → ℕ × ℕ) → Option Worst → String → Verdict ⊎ Worst
try_trivial score worst n =
    let (passed, total) = score n in
    let this : Worst = record { name = n; passed = passed; total = total } in
    if total == 0
    then inl (verdict "floor" inconclusive (fmt "nothing was graded while scoring %r" (str n ∷ [])))
    else elim worst [
      | none ↦ inr this
      | some w ↦ inr (if scores_more passed total w then this else w)
    ]

unfoldable pub conclude_floor : Worst → Verdict
conclude_floor w =
    if w.passed == w.total
    then verdict "floor" fails (
        fmt "the trivial submission %r scores full marks (%d/%d)"
          (str w.name ∷ num w.passed ∷ num w.total ∷ []))
    else verdict "floor" holds (
        fmt "the best trivial submission (%r) collects %d/%d (%.0f%%)"
          (str w.name ∷ num w.passed ∷ num w.total ∷ share w.passed w.total ∷ []))

unfoldable pub scan_floor : (String → ℕ × ℕ) → Worst → List String → Verdict
scan_floor score w [] = conclude_floor w
scan_floor score w (n ∷ names) = elim (try_trivial score (some w) n) [
  | inl v ↦ v
  | inr w' ↦ scan_floor score w' names
]

-- E2
unfoldable pub floor : (String → ℕ × ℕ) → List String → Verdict
floor score [] = verdict "floor" inconclusive (lit "no trivial submission was tried")
floor score (n ∷ names) = elim (try_trivial score none n) [
  | inl v ↦ v
  | inr w ↦ scan_floor score w names
]

-- The loop of E3: the channels on which the verifier is blind, and those that did not diverge.
-- `perturb c` answers (diverged, caught).
unfoldable pub scan_channels : (String → Bool × Bool) → List String → List String × List String
scan_channels perturb [] = ([], [])
scan_channels perturb (c ∷ channels) =
    let (diverged, caught) = perturb c in
    let (blind, inert) = scan_channels perturb channels in
    if not diverged
    then (blind, c ∷ inert)
    else if not caught
    then (c ∷ blind, inert)
    else (blind, inert)

-- E3
unfoldable pub channels_bite : (String → Bool × Bool) → List String → Verdict
channels_bite perturb [] = verdict "channels-bite" inconclusive (lit "no channel was perturbed")
channels_bite perturb (c ∷ cs) =
    let channels = c ∷ cs in
    let (blind, inert) = scan_channels perturb channels in
    if not (is_nil blind)
    then verdict "channels-bite" fails (
        cat (lit "the verifier accepted a submission that provably differs on: ")
          (names_text blind))
    else if length inert == length channels
    then verdict "channels-bite" inconclusive (
        lit
          "no perturbation changed any observation, so nothing was demonstrated about whether the verifier would notice one")
    else verdict "channels-bite" holds (
        if is_nil inert
        then lit "every diverging perturbation was caught"
        else cat (lit "every diverging perturbation was caught") (
            cat (fmt " (%d channel(s) could not be made to diverge: " (num (length inert) ∷ []))
              (cat (names_text inert) (lit ")"))))

-- The loop of E4 over `directories.items()`: the labels with a runnable reference, each with the
-- first three that were found.
unfoldable pub scan_directories :
    (String → List String) → List (String × String) → List (String × List String)
scan_directories find_runnable [] = []
scan_directories find_runnable ((label, path) ∷ directories) =
    let hits = find_runnable path in
    let found = scan_directories find_runnable directories in
    if is_nil hits then found else (label, take 3 hits) ∷ found

abbrev found_text : String × List String → Message
found_text (label, hits) = cat (lit label) (cat (lit " -> ") (names_text hits))

-- E4
unfoldable pub no_runnable_reference : (String → List String) → List (String × String) → Verdict
no_runnable_reference find_runnable [] =
    verdict "no-runnable-reference" inconclusive (lit "no directory was checked")
no_runnable_reference find_runnable (d ∷ ds) =
    let found = scan_directories find_runnable (d ∷ ds) in
    if not (is_nil found)
    then verdict "no-runnable-reference" fails
        (cat (lit "a runnable reference is reachable: ") (join "; " (map found_text found)))
    else verdict "no-runnable-reference" holds (
        cat (lit "no runnable reference in ")
          (names_text (sorted (map (λ (label, _). label) (d ∷ ds)))))

-- E5. `steps` is what `steps_touching_subject` answers: (touching, total).
unfoldable pub points_are_about_the_subject : ℕ × ℕ → Bool → Verdict
points_are_about_the_subject (touching, total) applies =
    if not applies
    then verdict "points-are-about-the-subject" not_applicable (
        lit
          "on this seam every observation is a return value of a call to the subject, so a point that is not about the subject cannot be constructed")
    else if total == 0
    then verdict "points-are-about-the-subject" inconclusive (lit "no scored step")
    else if touching == total
    then verdict "points-are-about-the-subject" holds
        (fmt "all %d scored step(s) invoke the subject" (num total ∷ []))
    else verdict "points-are-about-the-subject" fails (
        fmt
          "%d of %d scored step(s) never invoke the subject, so those points grade the surrounding shell"
          (num (total - touching) ∷ num total ∷ []))

-- E6. `forbidden` is what source inspection found, and `isolated` whether execution isolation is in
-- force.
unfoldable pub cannot_delegate_to_the_reference : List String → Bool → Verdict
cannot_delegate_to_the_reference forbidden isolated =
    if not (is_nil forbidden)
    then verdict "cannot-delegate-to-the-reference" fails (
        cat (lit "the submission reaches the reference: ") (names_text (take 4 (sorted forbidden))))
    else if not isolated
    then verdict "cannot-delegate-to-the-reference" inconclusive (
        lit
          "source inspection found nothing, but execution isolation is not in force, so work delegated to another process would not be visible to the clock")
    else verdict "cannot-delegate-to-the-reference" holds
        (lit "no forbidden import or call, and timing runs isolated")

-- E7
unfoldable pub package_reproduces_itself : ℕ × ℕ → Verdict
package_reproduces_itself (passed, total) =
    if total == 0
    then verdict "package-reproduces-itself" inconclusive
        (lit "the shipped verifier graded nothing")
    else if passed == total
    then verdict "package-reproduces-itself" holds
        (fmt "the shipped reference scores %d/%d inside the package" (num passed ∷ num total ∷ []))
    else verdict "package-reproduces-itself" fails (
        fmt "the package's own reference scores %d/%d against the expectations shipped beside it"
          (num passed ∷ num total ∷ []))

-- What driving the shipped image answers; a missing key is the empty text or 0.
pub record ImageOutcome : Type 0 where
  pub reproduced : Bool
  pub stage : String
  pub detail : String
  pub total : ℕ

-- E9
unfoldable pub reproduces_in_its_own_image : ImageOutcome → Verdict
reproduces_in_its_own_image o =
    let detail = clip 600 (lit o.detail) in
    if o.reproduced
    then verdict "reproduces-in-its-own-image" holds
        (if str_eq o.detail "" then lit "the shipped image reproduces the task" else lit o.detail)
    else if str_eq o.stage "dockerfile" || str_eq o.stage "unavailable"
    then verdict "reproduces-in-its-own-image" inconclusive detail
    else if str_eq o.stage "build"
    then verdict "reproduces-in-its-own-image" fails
        (cat (lit "the image this task ships does not build: ") detail)
    else if o.total == 0
    then verdict "reproduces-in-its-own-image" inconclusive detail
    else verdict "reproduces-in-its-own-image" fails detail

-- A set of digests as a list without repetitions, `{freeze_under_seed(s) for s in seeds}`.
abbrev pub has_text : List String → String → Bool
has_text xs s = any (λ x. str_eq x s) xs

unfoldable pub digest_set : (ℕ → String) → List ℕ → List String
digest_set freeze_under_seed [] = []
digest_set freeze_under_seed (s ∷ seeds) =
    let digests = digest_set freeze_under_seed seeds in
    let d = freeze_under_seed s in if has_text digests d then digests else d ∷ digests

-- E8
unfoldable pub seed_independent : (ℕ → String) → List ℕ → Verdict
seed_independent freeze_under_seed seeds =
    let digests = digest_set freeze_under_seed seeds in
    if ltb (length seeds) 2
    then verdict "seed-independent" inconclusive (lit "fewer than two seeds were tried")
    else if length digests == 1
    then verdict "seed-independent" holds
        (fmt "identical expectations under %d hash seeds" (num (length seeds) ∷ []))
    else verdict "seed-independent" fails (
        fmt
          "the expectations differ across hash seeds (%d distinct results from %d seeds), so what was frozen is this run's ordering rather than the subject's behaviour"
          (num (length digests) ∷ num (length seeds) ∷ []))
