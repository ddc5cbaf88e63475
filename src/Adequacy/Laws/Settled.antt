-- ===== src/Adequacy/Laws/Settled.antt =====
-- What a corpus is after its adequacy was measured, and repaired where it could be.
use frontier_refactor_factor.Prelude.{
  ℕ, zero, suc, ◌+◌, ◌≡◌, refl, sym, ap, ◌∙◌, String, true, not, ◌||◌, Option, none, some, List, [],
  ◌∷◌, arith, ◌==◌, is_nil,
}
use frontier_refactor_factor.Exec.{Exec, ok, pure}
use frontier_refactor_factor.Exec.Ensures.{
  ok-injective, Ensures, Ensures-pure, Ensures-bind, Ensures-skip, Ensures-if,
}
use frontier_refactor_factor.Adequacy.{Assessment, assessment_ok, reach_measured}
use frontier_refactor_factor.Adequacy.Repair.{
  Corpus, Seam, catching, caught, or_nothing, mark_adequate, mark_rest, improve, iterate,
  repair_from, repair, measure_corpus, propose_new, propose_at, refreeze_and,
  propose_probes_for_dark, format_existing_probes, filter_contractual_dark, merge_and_refreeze,
}

module _ {W P : Type 0} (seam : Seam W P) (names : List String) where
  -- The assessment on the corpus was measured, on a corpus with as many probes, and the corpus is
  -- usable only if it is ok.
  pub record Settled (d : Corpus P) : Type 0 where
    pub found : Assessment
    pub of_corpus : Corpus P
    pub at_measuring : W
    pub measured : (measure_corpus seam names of_corpus at_measuring).0 ≡ ok found
    pub same_probes : of_corpus.probes ≡ d.probes
    pub recorded : d.adequacy ≡ some found
    pub decided : (assessment_ok found || not d.usable) ≡ true

  abbrev Settles : Exec W (Corpus P) → Type 0
  Settles m = Ensures Settled m

  -- That corpus was measured so, in some world.
  abbrev Found : Corpus P → Assessment → Type 0
  Found c a = (w : W) × ((measure_corpus seam names c w).0 ≡ ok a)

  measure_corpus-Found : (c : Corpus P) → Ensures (Found c) (measure_corpus seam names c)
  measure_corpus-Found c = record { at = λ w a e. (w, e) }

  mark_rest-Settled :
      (n : ℕ) (a : Assessment) (c d : Corpus P)
      → c.probes ≡ d.probes
      → Found c a
      → Settled (mark_rest n a d)
  unfolding mark_rest
  mark_rest-Settled n a c d same (w, e) = record {
    found = a;
    of_corpus = c;
    at_measuring = w;
    measured = e;
    same_probes = ground (arith, same);
    recorded = ground arith;
    decided = ground arith;
  }

  refreeze_and-Settles :
      (again : Corpus P → Exec W (Corpus P)) (n : ℕ) (a : Assessment) (c : Corpus P) (new : List P)
      → Found c a
      → ((d : Corpus P) → Settles (again d))
      → Settles (refreeze_and seam names again n a c new)
  unfolding refreeze_and
  refreeze_and-Settles again n a c [] f h = Ensures-pure _ (mark_rest-Settled n a c c refl f)
  refreeze_and-Settles again n a c (p ∷ ps) f h =
      Ensures-skip (merge_and_refreeze seam c (p ∷ ps)) _ λ d.
        Ensures-if (d.probes == c.probes)
          (λ e. Ensures-pure _ (mark_rest-Settled (n + 1) a c d (ground (arith, e)) f)) λ e. h d

  abbrev SettlesAll : Option (Corpus P → Exec W (Corpus P)) → Type 0
  SettlesAll none = Unit
  SettlesAll (some again) = (d : Corpus P) → Settles (again d)

  improve-Settles :
      (again : Option (Corpus P → Exec W (Corpus P))) (n : ℕ) (a : Assessment) (c : Corpus P)
      → Found c a
      → SettlesAll again
      → Settles (improve seam names again n a c)
  unfolding improve
  improve-Settles none n a c f h = Ensures-pure _ (mark_rest-Settled n a c c refl f)
  improve-Settles (some again) n a c f h =
      Ensures-skip (propose_new seam names a c) _ λ new. refreeze_and-Settles again n a c new f h

  iterate-Settles :
      (again : Option (Corpus P → Exec W (Corpus P))) (n : ℕ) (c : Corpus P)
      → SettlesAll again
      → Settles (iterate seam names again n c)
  unfolding iterate mark_adequate
  iterate-Settles again n c h =
      Ensures-bind (measure_corpus seam names c) _ (measure_corpus-Found c) λ a (w, m).
        Ensures-if (assessment_ok a)
          (λ e. Ensures-pure (mark_adequate n a c) (record {
            found = a;
            of_corpus = c;
            at_measuring = w;
            measured = m;
            same_probes = refl;
            recorded = refl;
            decided = ground (arith, e);
          }))
          λ e. improve-Settles again n a c (w, m) h

  repair_from-Settles : (left n : ℕ) (c : Corpus P) → Settles (repair_from seam names left n c)
  unfolding repair_from
  repair_from-Settles zero n c = iterate-Settles none n c tt
  repair_from-Settles (suc left) n c =
      iterate-Settles (some (repair_from seam names left (n + 1))) n c
        (repair_from-Settles left (n + 1))

  -- After the repair, whatever the seam and the model do: the assessment on the corpus is one that
  -- was measured, on a corpus with as many probes as the one that is left; and the corpus is usable
  -- only if that assessment is ok.
  pub repair-Settled :
      (max_iterations : ℕ) (c : Corpus P) → Settles (repair seam names max_iterations c)
  unfolding repair
  repair-Settled n c = repair_from-Settles n 0 c

  -- No probes are proposed for a corpus without `inputs`.
  propose_probes_for_dark-caught :
      (regions : List String) (c : Corpus P) (w : W)
      → c.inputs ≡ none
      → catching (propose_probes_for_dark seam regions c) w ≡ (ok none, w)
  unfolding propose_probes_for_dark format_existing_probes caught
  propose_probes_for_dark-caught regions c w h = rw h refl

  abbrev ProposesNothing : Exec W (List P) → Type 0
  ProposesNothing m = Ensures (λ new. is_nil new ≡ true) m

  propose_at-ProposesNothing :
      (regions : List String) (c : Corpus P)
      → c.inputs ≡ none
      → ProposesNothing (propose_at seam names c regions)
  propose_at-ProposesNothing [] c h = Ensures-pure [] refl
  propose_at-ProposesNothing (r ∷ regions) c h =
      Ensures-bind {Q = λ reply. reply ≡ none}
        (catching (propose_probes_for_dark seam (r ∷ regions) c)) _
        (record {
          at = λ w a e. sym (
              ok-injective
                (ap (λ x. x.0) (sym (propose_probes_for_dark-caught (r ∷ regions) c w h)) ∙ e));
        })
        λ reply e. Ensures-pure (or_nothing reply) (rw e refl)

  propose_new-ProposesNothing :
      (a : Assessment) (c : Corpus P)
      → c.inputs ≡ none
      → ProposesNothing (propose_new seam names a c)
  unfolding propose_new
  propose_new-ProposesNothing a c h =
      Ensures-if (not (reach_measured a.reach) || is_nil a.reach.dark) (λ e. Ensures-pure [] refl)
        λ e.
          Ensures-skip (catching (filter_contractual_dark seam a.reach.dark)) _
            λ relevant. propose_at-ProposesNothing (or_nothing relevant) c h

  abbrev AddsNothing : Corpus P → Exec W (Corpus P) → Type 0
  AddsNothing c m = Ensures (λ d. (d.probes ≡ c.probes) × (d.scenarios ≡ c.scenarios)) m

  mark_rest-AddsNothing :
      (n : ℕ) (a : Assessment) (c : Corpus P) → AddsNothing c (pure (mark_rest n a c))
  unfolding mark_rest
  mark_rest-AddsNothing n a c = Ensures-pure _ (ground arith, ground arith)

  refreeze_and-AddsNothing :
      (again : Corpus P → Exec W (Corpus P)) (n : ℕ) (a : Assessment) (c : Corpus P) (new : List P)
      → is_nil new ≡ true
      → AddsNothing c (refreeze_and seam names again n a c new)
  unfolding refreeze_and
  refreeze_and-AddsNothing again n a c [] h = mark_rest-AddsNothing n a c
  refreeze_and-AddsNothing again n a c (p ∷ ps) h = cc

  improve-AddsNothing :
      (again : Option (Corpus P → Exec W (Corpus P))) (n : ℕ) (a : Assessment) (c : Corpus P)
      → c.inputs ≡ none
      → AddsNothing c (improve seam names again n a c)
  unfolding improve
  improve-AddsNothing none n a c h = mark_rest-AddsNothing n a c
  improve-AddsNothing (some again) n a c h =
      Ensures-bind (propose_new seam names a c) _ (propose_new-ProposesNothing a c h)
        λ new e. refreeze_and-AddsNothing again n a c new e

  iterate-AddsNothing :
      (again : Option (Corpus P → Exec W (Corpus P))) (n : ℕ) (c : Corpus P)
      → c.inputs ≡ none
      → AddsNothing c (iterate seam names again n c)
  unfolding iterate mark_adequate
  iterate-AddsNothing again n c h = Ensures-skip (measure_corpus seam names c) _ λ a.
      Ensures-if (assessment_ok a) (λ e. Ensures-pure (mark_adequate n a c) (refl, refl))
        λ e. improve-AddsNothing again n a c h

  -- A corpus that has no attribute `inputs`, as those of the process seam have none, is never
  -- repaired: whatever the seam, the model and the bound on the repairs, its probes are as many as
  -- before and its scenarios the same.
  pub repair-AddsNothing :
      (max_iterations : ℕ) (c : Corpus P)
      → c.inputs ≡ none
      → AddsNothing c (repair seam names max_iterations c)
  unfolding repair repair_from
  repair-AddsNothing zero c h = iterate-AddsNothing none 0 c h
  repair-AddsNothing (suc n) c h = iterate-AddsNothing (some (repair_from seam names n 1)) 0 c h
