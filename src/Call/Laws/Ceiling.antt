-- ===== src/Call/Laws/Ceiling.antt =====
-- E1 on the call seam, from what the freeze observed.
use frontier_refactor_factor.Prelude.{
  ◌≡◌, ◌<◌, refl, ap, sym, subst, ◌∙◌, String, Bool, true, none, some, List, [], ◌∷◌, arith, length,
  map, find, has, unique, eq_string, str_eq_iff, All, All-In, In, inl, inr, Bool-cases,
}
use frontier_refactor_factor.Evidence.{verdict_ok}
use frontier_refactor_factor.Evidence.Checks.{ceiling}
use frontier_refactor_factor.Compare.{Value}
use frontier_refactor_factor.Call.{Observation, Expectation, graded, digest}
use frontier_refactor_factor.Call.Corpus.{
  Corpus, Observed, conclude, hold_out, points, digests_of, runs_at,
}
use frontier_refactor_factor.Call.Battery.{Arguments, score_reference}
use frontier_refactor_factor.Call.Laws.Timed.{observed_ids}
use frontier_refactor_factor.Call.Laws.Unanimous.{Unanimous}
use frontier_refactor_factor.Call.Laws.Sound.{conclude-Sound}
use frontier_refactor_factor.Call.Laws.Battery.{Again, ceiling-Again}

has-In :
    (k : String) (runs : List Observation) (observed : Observed)
    → In (k, runs) observed
    → has (observed_ids observed) k ≡ true
has-In k runs [] m = elim m [ ]
has-In k runs ((i, os) ∷ observed) (inl e) =
    let same : i ≡ k = ap (λ x. x.0) e in ground (arith, str_eq_iff k i, same)
has-In k runs ((i, os) ∷ observed) (inr m) = ground (arith, has-In k runs observed m)

find-In :
    (k : String) (runs : List Observation) (observed : Observed)
    → unique (observed_ids observed) ≡ true
    → In (k, runs) observed
    → find k observed ≡ some runs
find-In k runs [] u m = elim m [ ]
find-In k runs ((i, os) ∷ observed) u (inl e) =
    let same : i ≡ k = ap (λ x. x.0) e in
    let that : os ≡ runs = ap (λ x. x.1) e in rw ((str_eq_iff i k).1 same) (ap some that)
find-In k runs ((i, os) ∷ observed) u (inr m) =
    ground (arith, u, find-In k runs observed, m, has-In k runs observed m, str_eq_iff i k)

points-digests : (es : List Expectation) → 0 < length (digests_of es) → 0 < points es
points-digests [] h = h
points-digests (e ∷ es) h = elim (Bool-cases (graded e)) [
  | inl g ↦ ground (arith, g)
  | inr g ↦
      let same : digests_of (e ∷ es) ≡ digests_of es = rw g refl in
      ground (arith, g, points-digests es (subst (λ ds. 0 < length ds) same h))
]

-- For each probe of the corpus, the answer is one of those that the freeze observed.
abbrev pub Answers : Observed → List Expectation → List Observation → Type 0
Answers observed [] actual = Unit
Answers observed (e ∷ es) [] = ⊥
Answers observed (e ∷ es) (a ∷ actual) =
    In a (runs_at (find e.probe_id observed)) × Answers observed es actual

module _ (sha : String → String) (dumps : Bool → Value → String → String) where
  numeric-conclude :
      (inputs : List (String × Arguments)) (observed : Observed)
      → (conclude sha dumps none inputs observed).numeric ≡ none
  unfolding conclude hold_out
  numeric-conclude inputs observed = ground arith

  Again-Answers :
      (observed : Observed) (corpus : Corpus Arguments) (exact : corpus.numeric ≡ none)
      (es : List Expectation) (actual : List Observation)
      → unique (observed_ids observed) ≡ true
      → All (Unanimous sha dumps observed) es
      → Answers observed es actual
      → Again sha dumps corpus exact es actual
  Again-Answers observed corpus exact [] actual u h a = tt
  Again-Answers observed corpus exact (e ∷ es) [] u h a = elim a [ ]
  Again-Answers observed corpus exact (e ∷ es) (o ∷ actual) u (h, hs) (a, rest) =
      let runs = h.first ∷ h.others in
      let there = find-In e.probe_id runs observed u h.seen in
      let same =
        All-In (λ r. digest sha dumps r ≡ e.digest) runs o h.same
          (subst (λ m. In o (runs_at m)) there a) in
      (
        (str_eq_iff (digest sha dumps o) e.digest).1 same,
        Again-Answers observed corpus exact es actual u hs rest,
      )

  -- E1 on this seam, without a numerical policy: of the corpus that the freeze makes of what it
  -- observed of its probes, if that is usable, the reference passes the check when it answers each
  -- graded probe as it did in any of the runs.
  pub ceiling-Answers :
      (inputs : List (String × Arguments)) (observed : Observed) (actual : List Observation)
      → observed_ids observed ≡ map (λ (pid, a). pid) inputs
      → unique (map (λ (pid, a). pid) inputs) ≡ true
      → (conclude sha dumps none inputs observed).usable ≡ true
      → Answers observed (conclude sha dumps none inputs observed).expectations actual
      → verdict_ok
          (ceiling (score_reference sha dumps (conclude sha dumps none inputs observed) actual))
        ≡ true
  ceiling-Answers inputs observed actual e u v a =
      let c = conclude sha dumps none inputs observed in
      let exact = numeric-conclude inputs observed in
      let sound = conclude-Sound sha dumps none inputs observed e u v in
      let again =
        Again-Answers observed c exact c.expectations actual
          (subst (λ ns. unique ns ≡ true) (sym e) u) sound.unanimous a in
      let some_point = points-digests c.expectations (omega (arith, sound.differ)) in
      ceiling-Again sha dumps c exact actual again ∙ ground (arith, some_point)
