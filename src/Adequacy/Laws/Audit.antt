-- ===== src/Adequacy/Laws/Audit.antt =====
-- The audit of the call seam, from the counts that it is given to the flag that it leaves.
use frontier_refactor_factor.Exec.{ok}
use frontier_refactor_factor.Prelude.{
  sym, subst, is_more, ◌*◌, ◌≡◌, ◌∙◌, ap, refl, String, Bool, not, ◌&&◌, ◌||◌, some, List, arith,
  leb, ◌==◌, any, str_eq,
}
use frontier_refactor_factor.Exec.Ensures.{>>=-eq-ok, ok-injective}
use frontier_refactor_factor.Adequacy.{
  Reach, Floor, Assessment, assess, assessment_ok, reach_ok, floor_ok, reach_measured,
  reach_fraction, fraction, measure_floor, max_floor,
}
use frontier_refactor_factor.Adequacy.Repair.{Corpus, Seam, probes_of, measure_corpus, audit}
use frontier_refactor_factor.Adequacy.Laws.Floor.{is_exceeded, is_tried, measure_floor_lem}

-- A quarter of the lines, where lines were counted.
abbrev pub reaches_enough : Reach → Bool
reaches_enough r = r.total == 0 || leb r.total (4 * r.reached)

assess_exact :
    (r : Reach) (f : Floor)
    → assessment_ok (assess r f) ≡ (reaches_enough r && not (is_more f.fraction max_floor))
unfolding assess assessment_ok reach_ok floor_ok reach_measured reach_fraction fraction
assess_exact r f = ground arith

assess_parts : (r : Reach) (f : Floor) → ((assess r f).reach ≡ r) × ((assess r f).floor ≡ f)
unfolding assess
assess_parts r f = (ground arith, ground arith)

-- A quarter of the lines is reached, and no trivial submission has more than three quarters.
abbrev pub is_adequate : Assessment → Bool
is_adequate a = reaches_enough a.reach && not (is_exceeded max_floor a.floor.attempts)

module _ {W P : Type 0} (seam : Seam W P) (names : List String) (k : String) where
  -- The lines that are recorded are those that the backend counted for the probes of the corpus,
  -- the floor is that of the trivial submissions on it, scored right after, and both decide.
  pub record Audited (c : Corpus P) (w : W) (d : Corpus P) : Type 0 where
    pub found : Assessment
    pub at_floor : W
    pub at_end : W
    pub recorded : d.adequacy ≡ some found
    pub counted : seam.measure (probes_of c) w ≡ (ok found.reach, at_floor)
    pub scored : measure_floor (seam.score_trivial c) names at_floor ≡ (ok found.floor, at_end)
    pub decided : d.usable ≡ (c.usable && is_adequate found)
    pub tried : is_tried k found.floor.attempts ≡ any (λ n. str_eq n k) names

  measured-Audited :
      (c : Corpus P) (w : W) (a : Assessment)
      → (measure_corpus seam names c w).0 ≡ ok a
      → (d : Corpus P) → d.adequacy ≡ some a
      → d.usable ≡ (c.usable && assessment_ok a)
      → Audited c w d
  unfolding measure_corpus
  measured-Audited c w a e d r u =
      let (reach, v, counted, e1) = >>=-eq-ok (seam.measure (probes_of c)) _ w a e in
      let (floor, v', scored, e2) =
        >>=-eq-ok (measure_floor (seam.score_trivial c) names) _ v a e1 in
      let (exceeded, tried) =
        (measure_floor_lem (seam.score_trivial c) k names max_floor).at v floor
          (ap (λ x. x.0) scored) in
      let same = ok-injective e2 in
      let (is_reach, is_floor) = assess_parts reach floor in
      let this_reach : a.reach ≡ reach = ap (λ b. b.reach) (sym same) ∙ is_reach in
      let this_floor : a.floor ≡ floor = ap (λ b. b.floor) (sym same) ∙ is_floor in
      let decides : assessment_ok a ≡ is_adequate a =
        ap assessment_ok (sym same)
        ∙ assess_exact reach floor
        ∙ (rw this_reach (rw this_floor (rw exceeded refl))) in
      record {
        found = a;
        at_floor = v;
        at_end = v';
        recorded = r;
        counted = rw this_reach counted;
        scored = rw this_floor scored;
        decided = u ∙ ap (λ b. c.usable && b) decides;
        tried = ap (λ f. is_tried k f.attempts) this_floor ∙ tried;
      }

  -- The audit of the call seam, whatever the world: it records the lines that the coverage backend
  -- counted for the probes of the corpus, and the floor of the trivial submissions that it was
  -- given; and it leaves a usable corpus usable exactly when the lines reached are a quarter of
  -- those there are, if any were counted, and no trivial submission has more than three quarters
  -- of its points.
  pub audit-Audited :
      (c : Corpus P) (w : W) (d : Corpus P) → (audit seam names c w).0 ≡ ok d → Audited c w d
  unfolding audit
  audit-Audited c w d e =
      let (a, v, measured, e1) = >>=-eq-ok (measure_corpus seam names c) _ w d e in
      let same = ok-injective e1 in
      measured-Audited c w a (ap (λ x. x.0) measured) d
        (subst (λ x. x.adequacy ≡ some a) same (ground arith))
        (subst (λ x. x.usable ≡ (c.usable && assessment_ok a)) same (ground arith))
