-- ===== src/Call/Laws/Sound.antt =====
-- What a corpus is that the freeze calls usable.
use frontier_refactor_factor.Prelude.{
  ◌*◌, ◌≡◌, ◌≤◌, refl, sym, subst, String, Bool, true, false, not, Option, List, [], ◌∷◌, map,
  if◌then◌else◌, arith, length, is_nil, has, All, All-weaken, All-select, select-All, unique,
  any-has, eq_string,
}
use frontier_refactor_factor.Compare.{Value, Policy, Units}
use frontier_refactor_factor.Call.{Expectation, freeze_corpus, report_usable}
use frontier_refactor_factor.Call.Corpus.{
  Corpus, Observed, answered_of, digests_of, pick_timed, hold_out, conclude, is_refusals,
  refusals_corpus, is_one_result, one_result_corpus, held_corpus, refused_corpus, sample_error,
}
use frontier_refactor_factor.Call.Laws.Unanimous.{
  Unanimous, corpus-Unanimous, attempted-freeze_corpus, probe_id-freeze_probe,
}
use frontier_refactor_factor.Call.Laws.Timed.{
  ids, observed_ids, Leaves, pick_timed-Leaves, pick_timed-answered, untimed_of, kept_some,
}

module _ (sha : String → String) (dumps : Bool → Value → String → String) where
  empty_unusable :
      (Args : Type 0) (numeric : Option (Policy × Units))
      → (conclude sha dumps {Args = Args} numeric [] []).usable ≡ false
  unfolding conclude hold_out freeze_corpus report_usable pick_timed answered_of
  empty_unusable Args numeric = refl

  has-expectations :
      (observed : Observed) (pid : String)
      → has (observed_ids observed) pid ≡ false
      → has (ids (freeze_corpus sha dumps observed).expectations) pid ≡ false
  unfolding freeze_corpus
  has-expectations [] pid h = h
  has-expectations ((p, runs) ∷ observed) pid h =
      ground (arith, h, has-expectations observed pid, probe_id-freeze_probe sha dumps p runs)

  unique-expectations :
      (observed : Observed)
      → unique (observed_ids observed) ≡ true
      → unique (ids (freeze_corpus sha dumps observed).expectations) ≡ true
  unfolding freeze_corpus
  unique-expectations [] u = refl
  unique-expectations ((p, runs) ∷ observed) u = ground (
    arith,
    u,
    has-expectations observed p,
    unique-expectations observed,
    probe_id-freeze_probe sha dumps p runs,
  )

module _ (sha : String → String) (dumps : Bool → Value → String → String) {Args : Type 0} where
  -- What a usable corpus has, of what was observed: no probe is both graded and timed; of every
  -- graded probe all runs have the digest that is expected; one of them was answered, and so were
  -- all that are timed; two graded probes differ in their digests; and each probe that was
  -- observed was kept or counted as discarded, of which there are at most a quarter.
  pub record Sound (observed : Observed) (c : Corpus Args) : Type 0 where
    pub apart : All (λ e. has c.timed e.probe_id ≡ false) c.expectations
    pub unanimous : All (Unanimous sha dumps observed) c.expectations
    pub answered : String
    pub is_graded : has (ids c.expectations) answered ≡ true
    pub is_answered : has (answered_of observed) answered ≡ true
    pub timed_answered :
        (pid : String) → has c.timed pid ≡ true → has (answered_of observed) pid ≡ true
    pub differ : 2 ≤ length (digests_of c.expectations)
    pub few_lost : 4 * c.discarded ≤ c.drawn
    pub all_drawn : c.drawn ≡ length observed

  Sound-if :
      (observed : Observed) (b : Bool) (c d : Corpus Args)
      → c.usable ≡ false
      → (b ≡ false → d.usable ≡ true → Sound observed d)
      → (if b then c else d).usable ≡ true
      → Sound observed (if b then c else d)
  Sound-if observed true c d h k u = ground (arith, h, u)
  Sound-if observed false c d h k u = k refl u

  held-Sound :
      (numeric : Option (Policy × Units)) (inputs : List (String × Args)) (observed : Observed)
      → is_nil (answered_of observed) ≡ false
      → let report = freeze_corpus sha dumps observed in
        let timed = pick_timed report.expectations 3 (answered_of observed) in
        let kept = untimed_of timed report.expectations in
        is_refusals kept (answered_of observed) ≡ false
        → is_one_result kept ≡ false
        → report_usable report ≡ true
        → Leaves (ids report.expectations) timed
        → Sound observed (held_corpus numeric inputs observed report timed kept)
  unfolding report_usable
  held-Sound numeric inputs observed h a b w l =
      let report = freeze_corpus sha dumps observed in
      let answered = answered_of observed in
      let timed = pick_timed report.expectations 3 answered in
      let untimed = λ (e : Expectation). not (has timed e.probe_id) in
      let kept = untimed_of timed report.expectations in
      let some = kept_some timed report.expectations l.one l.listed l.untimed in
      let (pid, m, k) = any-has (ids kept) answered (ground (arith, a, some)) in
      record {
        apart =
            All-weaken (λ e. untimed e ≡ true) (λ e. has timed e.probe_id ≡ false) kept
              (λ e q. ground (arith, q)) (select-All untimed report.expectations);
        unanimous =
            All-select (Unanimous sha dumps observed) untimed report.expectations
              (corpus-Unanimous sha dumps observed);
        answered = pid;
        is_graded = k;
        is_answered = m;
        timed_answered = λ p q. pick_timed-answered report.expectations answered p h q;
        differ = ground (arith, b, some);
        few_lost = ground (arith, w);
        all_drawn = attempted-freeze_corpus sha dumps observed;
      }

  hold_out-Sound :
      (numeric : Option (Policy × Units)) (inputs : List (String × Args)) (observed : Observed)
      → unique (observed_ids observed) ≡ true
      → is_nil (answered_of observed) ≡ false
      → let report = freeze_corpus sha dumps observed in
        let c =
          hold_out sha dumps numeric inputs observed report
            (pick_timed report.expectations 3 (answered_of observed)) in
        c.usable ≡ true → Sound observed c
  unfolding hold_out report_usable
  hold_out-Sound numeric inputs observed u h v =
      let report = freeze_corpus sha dumps observed in
      let answered = answered_of observed in
      let timed = pick_timed report.expectations 3 answered in
      let kept = untimed_of timed report.expectations in
      let leaves =
        pick_timed-Leaves report.expectations answered (unique-expectations sha dumps observed u) in
      Sound-if observed (is_refusals kept answered) (refusals_corpus inputs) _ refl
        (λ a.
          Sound-if observed (is_one_result kept) (one_result_corpus inputs kept)
            (held_corpus numeric inputs observed report timed kept) refl
            λ b w. held-Sound numeric inputs observed h a b w (leaves (ground (arith, w))))
        v

  conclude_some :
      (numeric : Option (Policy × Units)) (i : String × Args) (inputs : List (String × Args))
      (observed : Observed)
      → unique (observed_ids observed) ≡ true
      → (conclude sha dumps numeric (i ∷ inputs) observed).usable ≡ true
      → Sound observed (conclude sha dumps numeric (i ∷ inputs) observed)
  unfolding conclude
  conclude_some numeric i inputs observed u v =
      let report = freeze_corpus sha dumps observed in
      Sound-if observed (is_nil (answered_of observed))
        (refused_corpus (i ∷ inputs) (sample_error observed))
        (hold_out sha dumps numeric (i ∷ inputs) observed report
          (pick_timed report.expectations 3 (answered_of observed)))
        refl (λ c w. hold_out-Sound numeric (i ∷ inputs) observed u c w) v

  -- Whatever was observed of the probes, one list of answers for each, a corpus that the freeze
  -- calls usable is sound.
  pub conclude-Sound :
      (numeric : Option (Policy × Units)) (inputs : List (String × Args)) (observed : Observed)
      → observed_ids observed ≡ map (λ (pid, a). pid) inputs
      → unique (map (λ (pid, a). pid) inputs) ≡ true
      → (conclude sha dumps numeric inputs observed).usable ≡ true
      → Sound observed (conclude sha dumps numeric inputs observed)
  conclude-Sound numeric [] [] e u v = ground (arith, v, empty_unusable sha dumps Args numeric)
  conclude-Sound numeric [] (o ∷ observed) e u v = ground (arith, e)
  conclude-Sound numeric (i ∷ inputs) observed e u v =
      conclude_some numeric i inputs observed (subst (λ ns. unique ns ≡ true) (sym e) u) v
