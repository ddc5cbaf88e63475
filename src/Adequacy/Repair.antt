-- ===== src/Adequacy/Repair.antt =====
-- The repair loop of frf/core/adequacy.py, and the audit of frf/observe/call/stages.py that
-- measures once. What a model is asked, and how its reply is read as values, is an argument.
use frontier_refactor_factor.Prelude.{
  ℕ, zero, suc, ◌+◌, String, Bool, false, not, ◌||◌, Option, none, some, List, [], ◌∷◌, ltb, ◌==◌,
  if◌then◌else◌, any, select, take, is_nil, str_eq, num, Message, fmt, cat, has_text,
}
use frontier_refactor_factor.Exec.{
  Exec, Result, ok, err, refusal, error, other_error, is_exception, continue, pure, lift, ◌>>=◌,
}
use frontier_refactor_factor.Adequacy.{
  Reach, reach_measured, measure_floor, Assessment, assess, assessment_ok,
}

-- A corpus as the loop sees it. That of the call seam has `inputs`, that of the process seam has
-- `scenarios`; an attribute that a seam does not have is `none`.
pub record Corpus (P : Type 0) : Type 0 where
  pub inputs : Option (List P)
  pub scenarios : Option (List P)
  pub probes : ℕ
  pub usable : Bool
  pub adequacy_note : Message
  pub adequacy : Option Assessment

-- `getattr(corpus, "inputs", None) or getattr(corpus, "scenarios", None) or {}`
unfoldable pub probes_of : {P : Type 0} → Corpus P → List P
probes_of c = elim c.inputs [
  | some (p ∷ ps) ↦ p ∷ ps
  | _ ↦ elim c.scenarios [ some ps ↦ ps | none ↦ [] ]
]

-- `except Exception`: `none` stands for one that was caught.
unfoldable pub caught : {A : Type 0} → Result A → Result (Option A)
caught (ok a) = ok (some a)
caught (err (refusal s)) = ok none
caught (err (error e)) = if is_exception e.class then ok none else err (error e)

abbrev pub catching : {W A : Type 0} → Exec W A → Exec W (Option A)
catching m w = let (r, w') = m w in (caught r, w')

-- What the loop is handed. `ask_contractual` is the reply of the model on which of the regions
-- are contractual, if a list was found in it; `ask_call`, `ask_package` and `ask_repo` are the
-- proposals that were read from its replies, given the regions and the probes shown as examples.
-- `refreeze` answers the corpus also where it raises, since it changes it in place.
pub record Seam (W P : Type 0) : Type 0 where
  pub scale : String
  pub has_schema : Bool
  pub measure : List P → Exec W Reach
  pub score_trivial : Corpus P → String → Exec W (ℕ × ℕ)
  pub ask_contractual : List String → Exec W (Option (List String))
  pub ask_call : List String → List P → Exec W (List P)
  pub ask_package : List String → List P → Exec W (List P)
  pub ask_repo : List String → List P → Exec W (List P)
  pub refreeze : Option (Corpus P → Message → P → W → (Result (Unit {0}) × Corpus P) × W)

abbrev pub filtered : List String → Option (Option (List String)) → List String
filtered dark none = take 3 (take 20 dark)
filtered dark (some none) = []
filtered dark (some (some names)) = select (λ r. any (λ d. has_text d r) dark) names

abbrev pub or_nothing : {A : Type 0} → Option (List A) → List A
or_nothing none = []
or_nothing (some xs) = xs

module _ {W P : Type 0} (seam : Seam W P) where
  unfoldable pub filter_contractual_dark : List String → Exec W (List String)
  unfolding caught
  filter_contractual_dark [] = pure []
  filter_contractual_dark (d ∷ dark) = do
    reply ← catching (seam.ask_contractual (take 20 (d ∷ dark)))
    pure (filtered (d ∷ dark) reply)

  -- The examples are read from `corpus.inputs`, whatever the seam.
  unfoldable pub format_existing_probes : Corpus P → Result (List P)
  format_existing_probes c = elim c.inputs [
    | some ps ↦ ok (take 10 ps)
    | none ↦ err (
        error (record {
          class = other_error "AttributeError";
          text = "'Corpus' object has no attribute 'inputs'";
        }))
  ]

  -- `except Exception: pass`, then `return []`
  abbrev pub proposed : Exec W (List P) → Exec W (List P)
  proposed ask = do reply ← catching ask; pure (or_nothing reply)

  -- Which of the three proposals is asked for.
  unfoldable pub propose_for : List String → List P → Exec W (List P)
  unfolding caught
  propose_for regions existing =
      if str_eq seam.scale "module" || str_eq seam.scale "kernel"
      then (if seam.has_schema then proposed (seam.ask_call regions existing) else pure [])
      else if str_eq seam.scale "package"
      then proposed (seam.ask_package regions existing)
      else if str_eq seam.scale "repo"
      then proposed (seam.ask_repo regions existing)
      else pure []

  unfoldable pub propose_probes_for_dark : List String → Corpus P → Exec W (List P)
  unfolding format_existing_probes propose_for
  propose_probes_for_dark regions c = do
    existing ← lift (format_existing_probes c)
    propose_for regions existing

  -- One refreeze after the other; what one raises does not stop the next.
  unfoldable pub refreeze_all :
      (Corpus P → Message → P → W → (Result (Unit {0}) × Corpus P) × W)
      → ℕ
      → List P
      → Corpus P
      → Exec W (Corpus P)
  unfolding caught
  refreeze_all freeze n [] c w = pure c w
  refreeze_all freeze n (p ∷ ps) c w =
      let ((r, c'), w') = freeze c (fmt "repair_%d" (num n ∷ [])) p w in
      continue (caught r, w') λ _. refreeze_all freeze (n + 1) ps c'

  unfoldable pub merge_and_refreeze : Corpus P → List P → Exec W (Corpus P)
  unfolding refreeze_all
  merge_and_refreeze c new = elim seam.refreeze [
    | none ↦ pure c
    | some freeze ↦ refreeze_all freeze c.probes new c
  ]

-- `corpus.adequacy_note = ...; corpus.adequacy = ...`
abbrev noted : {P : Type 0} → Message → Assessment → Corpus P → Corpus P
noted note a c = record c { adequacy_note = note; adequacy = some a }

-- What is written on an adequate corpus, in the given iteration.
unfoldable pub mark_adequate : {P : Type 0} → ℕ → Assessment → Corpus P → Corpus P
mark_adequate iteration a c =
    noted
      (if ltb 0 iteration then fmt "adequate after %d repair(s)" (num iteration ∷ []) else a.note) a
      c

-- What is written after the loop, when it was left by a `break`.
unfoldable pub mark_rest : {P : Type 0} → ℕ → Assessment → Corpus P → Corpus P
mark_rest attempts a c =
    if not (assessment_ok a)
    then noted (cat (fmt "inadequate after %d repair attempt(s): " (num attempts ∷ [])) a.note) a
        (record c { usable = false })
    else noted a.note a c

module _ {W P : Type 0} (seam : Seam W P) (trivial_names : List String) where
  -- Reach and floor of the corpus as it stands.
  unfoldable pub measure_corpus : Corpus P → Exec W Assessment
  unfolding probes_of
  measure_corpus c = do
    reach ← seam.measure (probes_of c)
    floor ← measure_floor (seam.score_trivial c) trivial_names
    pure (assess reach floor)

  abbrev pub propose_at : Corpus P → List String → Exec W (List P)
  propose_at c [] = pure []
  propose_at c (r ∷ regions) = do
    new ← catching (propose_probes_for_dark seam (r ∷ regions) c)
    pure (or_nothing new)

  -- The new probes; none, if no region is dark, contractual or proposed for, or one
  -- of the two calls raised.
  unfoldable pub propose_new : Assessment → Corpus P → Exec W (List P)
  unfolding caught
  propose_new a c = if not (reach_measured a.reach) || is_nil a.reach.dark then pure [] else (do
    relevant ← catching (filter_contractual_dark seam a.reach.dark)
    propose_at c (or_nothing relevant))

  -- The end of an iteration: the corpus is frozen again, and `again` measures it, unless it has
  -- no more probes than before.
  unfoldable pub refreeze_and :
      (Corpus P → Exec W (Corpus P)) → ℕ → Assessment → Corpus P → List P → Exec W (Corpus P)
  refreeze_and again attempts a c [] = pure (mark_rest attempts a c)
  refreeze_and again attempts a c (p ∷ ps) = do
    merged ← merge_and_refreeze seam c (p ∷ ps)
    (if merged.probes == c.probes then pure (mark_rest (attempts + 1) a merged) else again merged)

  unfoldable pub improve :
      Option (Corpus P → Exec W (Corpus P)) → ℕ → Assessment → Corpus P → Exec W (Corpus P)
  unfolding propose_new refreeze_and
  improve none iteration a c = pure (mark_rest iteration a c)
  improve (some again) iteration a c = do
    new ← propose_new a c
    refreeze_and again iteration a c new

  -- One iteration, the last one where `again` is none.
  unfoldable pub iterate : Option (Corpus P → Exec W (Corpus P)) → ℕ → Corpus P → Exec W (Corpus P)
  unfolding mark_adequate measure_corpus improve
  iterate again iteration c = do
    a ← measure_corpus c
    (if assessment_ok a then pure (mark_adequate iteration a c) else improve again iteration a c)

  -- The loop with `left` repairs to go; those made are as many as the iterations before.
  unfoldable pub repair_from : ℕ → ℕ → Corpus P → Exec W (Corpus P)
  unfolding iterate
  repair_from zero iteration c = iterate none iteration c
  repair_from (suc left) iteration c = iterate (some (repair_from left (iteration + 1))) iteration c

  unfoldable pub repair : ℕ → Corpus P → Exec W (Corpus P)
  unfolding repair_from
  repair max_iterations c = repair_from max_iterations 0 c

  -- `audit` of the call seam: no repair.
  unfoldable pub audit : Corpus P → Exec W (Corpus P)
  unfolding measure_corpus
  audit c = do
    a ← measure_corpus c
    pure (
        if not (assessment_ok a)
        then noted a.note a (record c { usable = false })
        else noted a.note a c)
