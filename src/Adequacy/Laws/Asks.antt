-- ===== src/Adequacy/Laws/Asks.antt =====
-- How often the repair loop asks a model.
use frontier_refactor_factor.Prelude.{
  Fraction, ℕ, zero, suc, ◌+◌, ◌*◌, ◌≤◌, ◌≡◌, refl, subst, String, Bool, true, false, not, ◌||◌,
  Option, none, some, List, [], ◌∷◌, arith, ◌==◌, if◌then◌else◌, is_nil, str_eq, take, num, Message,
  fmt,
}
use frontier_refactor_factor.Exec.{Exec, Result, ok, err, pure, continue, ◌>>=◌, lift}
use frontier_refactor_factor.Adequacy.{
  Assessment, assessment_ok, reach_measured, assess, score_all, measure_floor, floor_of, put,
  fraction,
}
use frontier_refactor_factor.Adequacy.Repair.{
  Corpus, Seam, catching, caught, proposed, filtered, or_nothing, mark_adequate, mark_rest, improve,
  iterate, repair_from, repair, measure_corpus, propose_new, propose_at, refreeze_and, propose_for,
  probes_of, propose_probes_for_dark, format_existing_probes, filter_contractual_dark, refreeze_all,
  merge_and_refreeze,
}

-- What a block adds to the count at most, whether it returns or raises.
module _ {W : Type 0} (tally : W → ℕ) where
  pub record Spends {A : Type 0} (n : ℕ) (m : Exec W A) : Type 0 where
    pub at : (w : W) → tally (m w).1 ≤ tally w + n

  Spends-pure : {A : Type 0} (n : ℕ) (a : A) → Spends n (pure a)
  Spends-pure n a = record { at = λ w. omega arith }

  Spends-lift : {A : Type 0} (r : Result A) → Spends 0 (lift r)
  Spends-lift r = record { at = λ w. omega arith }

  continue-at :
      {A B : Type 0} (k n : ℕ) (r : Result A) (w : W) (f : A → Exec W B)
      → tally w ≤ k
      → ((a : A) → Spends n (f a))
      → tally (continue (r, w) f).1 ≤ k + n
  continue-at k n (ok a) w f h s = omega (arith, (s a).at w)
  continue-at k n (err e) w f h s = omega arith

  Spends-bind :
      {A B : Type 0} (k n : ℕ) (m : Exec W A) (f : A → Exec W B)
      → Spends k m
      → ((a : A) → Spends n (f a))
      → Spends (k + n) (m >>= f)
  Spends-bind k n m f h s = record {
    at = λ w. let p = continue-at (tally w + k) n (m w).0 (m w).1 f (h.at w) s in omega (arith, p);
  }

  Spends-free :
      {A B : Type 0} (n : ℕ) (m : Exec W A) (f : A → Exec W B)
      → Spends 0 m
      → ((a : A) → Spends n (f a))
      → Spends n (m >>= f)
  Spends-free n m f h s = record {
    at = λ w. let p = (Spends-bind 0 n m f h s).at w in omega (arith, p);
  }

  Spends-catching : {A : Type 0} (n : ℕ) (m : Exec W A) → Spends n m → Spends n (catching m)
  Spends-catching n m h = record { at = λ w. h.at w }

  Spends-if :
      {A : Type 0} (n : ℕ) (b : Bool) (x y : Exec W A)
      → Spends n x
      → Spends n y
      → Spends n (if b then x else y)
  Spends-if n true x y h k = h
  Spends-if n false x y h k = k

module _ {W P : Type 0} (seam : Seam W P) (names : List String) (tally : W → ℕ)
    (measure_free : (ps : List P) → Spends tally 0 (seam.measure ps))
    (score_free : (c : Corpus P) (n : String) → Spends tally 0 (seam.score_trivial c n))
    (refreeze_free : (freeze : Corpus P → Message → P → W → (Result (Unit {0}) × Corpus P) × W)
        (c : Corpus P) (i : Message) (p : P) (w : W)
      → seam.refreeze ≡ some freeze
      → tally (freeze c i p w).1 ≤ tally w)
    (one_contractual : (regions : List String) → Spends tally 1 (seam.ask_contractual regions))
    (one_call : (regions : List String) (ps : List P) → Spends tally 1 (seam.ask_call regions ps))
    (one_package : (regions : List String) (ps : List P)
      → Spends tally 1 (seam.ask_package regions ps))
    (one_repo : (regions : List String) (ps : List P)
      → Spends tally 1 (seam.ask_repo regions ps)) where
  score_all-Spends :
      (c : Corpus P) (ns : List String) (before : List (String × Fraction))
      → Spends tally 0 (score_all (seam.score_trivial c) ns before)
  unfolding score_all
  score_all-Spends c [] before = Spends-pure tally 0 before
  score_all-Spends c (n ∷ ns) before =
      Spends-bind tally 0 0 (seam.score_trivial c n) _ (score_free c n)
        λ s. score_all-Spends c ns (put n (fraction s.0 s.1) before)

  measure_corpus-Spends : (c : Corpus P) → Spends tally 0 (measure_corpus seam names c)
  unfolding measure_corpus measure_floor
  measure_corpus-Spends c =
      Spends-bind tally 0 0 (seam.measure (probes_of c)) _ (measure_free (probes_of c)) λ r.
        Spends-bind tally 0 0 (measure_floor (seam.score_trivial c) names) _
          (Spends-bind tally 0 0 (score_all (seam.score_trivial c) names []) _
            (score_all-Spends c names []) λ as'. Spends-pure tally 0 (floor_of as'))
          λ f. Spends-pure tally 0 (assess r f)

  filter_contractual_dark-Spends :
      (dark : List String) → Spends tally 1 (filter_contractual_dark seam dark)
  unfolding filter_contractual_dark
  filter_contractual_dark-Spends [] = Spends-pure tally 1 []
  filter_contractual_dark-Spends (d ∷ dark) =
      Spends-bind tally 1 0 (catching (seam.ask_contractual (take 20 (d ∷ dark)))) _
        (Spends-catching tally 1 _ (one_contractual (take 20 (d ∷ dark))))
        λ reply. Spends-pure tally 0 (filtered (d ∷ dark) reply)

  proposed-Spends :
      (ask : Exec W (List P)) → Spends tally 1 ask → Spends tally 1 (proposed seam ask)
  proposed-Spends ask h =
      Spends-bind tally 1 0 (catching ask) _ (Spends-catching tally 1 ask h)
        λ r. Spends-pure tally 0 (or_nothing r)

  propose_for-Spends :
      (regions : List String) (ps : List P) → Spends tally 1 (propose_for seam regions ps)
  unfolding propose_for
  propose_for-Spends regions ps =
      Spends-if tally 1 (str_eq seam.scale "module" || str_eq seam.scale "kernel") _ _
        (Spends-if tally 1 seam.has_schema _ _ (proposed-Spends _ (one_call regions ps))
          (Spends-pure tally 1 []))
        (Spends-if tally 1 (str_eq seam.scale "package") _ _
          (proposed-Spends _ (one_package regions ps))
          (Spends-if tally 1 (str_eq seam.scale "repo") _ _
            (proposed-Spends _ (one_repo regions ps)) (Spends-pure tally 1 [])))

  propose_at-Spends :
      (c : Corpus P) (regions : List String) → Spends tally 1 (propose_at seam names c regions)
  unfolding propose_probes_for_dark
  propose_at-Spends c [] = Spends-pure tally 1 []
  propose_at-Spends c (r ∷ rs) =
      Spends-bind tally 1 0 (catching (propose_probes_for_dark seam (r ∷ rs) c)) _
        (Spends-catching tally 1 _ (
          Spends-bind tally 0 1 (lift (format_existing_probes seam c)) _
            (Spends-lift tally (format_existing_probes seam c))
            λ ps. propose_for-Spends (r ∷ rs) ps))
        λ new. Spends-pure tally 0 (or_nothing new)

  propose_new-Spends : (a : Assessment) (c : Corpus P) → Spends tally 2 (propose_new seam names a c)
  unfolding propose_new
  propose_new-Spends a c =
      Spends-if tally 2 (not (reach_measured a.reach) || is_nil a.reach.dark) _ _
        (Spends-pure tally 2 [])
        (Spends-bind tally 1 1 (catching (filter_contractual_dark seam a.reach.dark)) _
          (Spends-catching tally 1 _ (filter_contractual_dark-Spends a.reach.dark))
          λ relevant. propose_at-Spends c (or_nothing relevant))

  refreeze_all-Spends :
      (freeze : Corpus P → Message → P → W → (Result (Unit {0}) × Corpus P) × W) (n : ℕ)
      (ps : List P) (c : Corpus P)
      → seam.refreeze ≡ some freeze
      → Spends tally 0 (refreeze_all seam freeze n ps c)
  unfolding refreeze_all
  refreeze_all-Spends freeze n [] c h = Spends-pure tally 0 c
  refreeze_all-Spends freeze n (p ∷ ps) c h = record {
    at = λ w.
        let step = freeze c (fmt "repair_%d" (num n ∷ [])) p w in
        continue-at tally (tally w) 0 (caught step.0.0) step.1 _
          (refreeze_free freeze c (fmt "repair_%d" (num n ∷ [])) p w h)
          λ _. refreeze_all-Spends freeze (n + 1) ps step.0.1 h;
  }

  merge_and_refreeze-Spends :
      (c : Corpus P) (new : List P) → Spends tally 0 (merge_and_refreeze seam c new)
  unfolding merge_and_refreeze
  merge_and_refreeze-Spends c new = merged seam.refreeze refl
    where
      merged :
          (o : Option (Corpus P → Message → P → W → (Result (Unit {0}) × Corpus P) × W))
          → seam.refreeze ≡ o
          → Spends tally 0
              (elim o [ none ↦ pure c | some freeze ↦ refreeze_all seam freeze c.probes new c ])
      merged none h = Spends-pure tally 0 c
      merged (some freeze) h = refreeze_all-Spends freeze c.probes new c h

  refreeze_and-Spends :
      (k : ℕ) (again : Corpus P → Exec W (Corpus P)) (n : ℕ) (a : Assessment) (c : Corpus P)
      (new : List P)
      → ((d : Corpus P) → Spends tally k (again d))
      → Spends tally k (refreeze_and seam names again n a c new)
  unfolding refreeze_and
  refreeze_and-Spends k again n a c [] h = Spends-pure tally k (mark_rest n a c)
  refreeze_and-Spends k again n a c (p ∷ ps) h =
      Spends-free tally k (merge_and_refreeze seam c (p ∷ ps)) _
        (merge_and_refreeze-Spends c (p ∷ ps))
        λ d.
          Spends-if tally k (d.probes == c.probes) _ _ (Spends-pure tally k (mark_rest (n + 1) a d))
            (h d)

  last-Spends : (n : ℕ) (c : Corpus P) → Spends tally 0 (iterate seam names none n c)
  unfolding iterate improve
  last-Spends n c =
      Spends-bind tally 0 0 (measure_corpus seam names c) _ (measure_corpus-Spends c) λ a.
        Spends-if tally 0 (assessment_ok a) _ _ (Spends-pure tally 0 (mark_adequate n a c))
          (Spends-pure tally 0 (mark_rest n a c))

  iterate-Spends :
      (k : ℕ) (again : Corpus P → Exec W (Corpus P)) (n : ℕ) (c : Corpus P)
      → ((d : Corpus P) → Spends tally k (again d))
      → Spends tally (2 + k) (iterate seam names (some again) n c)
  unfolding iterate improve
  iterate-Spends k again n c h =
      Spends-free tally (2 + k) (measure_corpus seam names c) _ (measure_corpus-Spends c) λ a.
        Spends-if tally (2 + k) (assessment_ok a) _ _
          (Spends-pure tally (2 + k) (mark_adequate n a c))
          (Spends-bind tally 2 k (propose_new seam names a c) _ (propose_new-Spends a c)
            λ new. refreeze_and-Spends k again n a c new h)

  repair_from-Spends :
      (left n : ℕ) (c : Corpus P) → Spends tally (2 * left) (repair_from seam names left n c)
  unfolding repair_from
  repair_from-Spends zero n c = last-Spends n c
  repair_from-Spends (suc left) n c =
      subst (λ k. Spends tally k (repair_from seam names (suc left) n c)) (omega arith)
        (iterate-Spends (2 * left) (repair_from seam names left (n + 1)) n c
          λ d. repair_from-Spends left (n + 1) d)

  -- The repair loop ends within its bound, and asks a model twice for each repair at most: where
  -- measuring, scoring and freezing ask none, and one reply takes one call, a repair of at most
  -- `max_iterations` makes at most twice as many calls, whether it returns or raises.
  pub repair-Spends :
      (max_iterations : ℕ) (c : Corpus P)
      → Spends tally (2 * max_iterations) (repair seam names max_iterations c)
  unfolding repair
  repair-Spends n c = repair_from-Spends n 0 c
