-- ===== src/Call/Laws/Unanimous.antt =====
-- What the freeze of a probe keeps.
use frontier_refactor_factor.Prelude.{
  ◌≡◌, ◌↔◌, refl, ap, sym, ◌∙◌, inl, inr, String, Bool, true, false, List, [], ◌∷◌, map,
  if◌then◌else◌, arith, ltb, length, distinct, eq_string, distinct-one, all_one, All, All-weaken,
  All-unmap, In, Bool-cases,
}
use frontier_refactor_factor.Compare.{Value}
use frontier_refactor_factor.Call.{
  Observation, Expectation, graded, digest, freeze_probe, freeze_corpus, attempted, pop_text,
}
use frontier_refactor_factor.Call.Corpus.{Observed}

module _ (sha : String → String) (dumps : Bool → Value → String → String) where
  abbrev hash : Observation → String
  hash = digest sha dumps

  All-digests :
      (r : Observation) (rs : List Observation)
      → All (λ o. hash o ≡ hash r) rs
      → All (λ d. d ≡ hash r) (map hash rs)
  All-digests r [] h = tt
  All-digests r (o ∷ rs) (h, hs) = (h, All-digests r rs hs)

  if_kept :
      (b : Bool) (x y : Expectation)
      → graded x ≡ false
      → graded (if b then x else y) ≡ true
      → (b ≡ false) × ((if b then x else y) ≡ y)
  if_kept true x y h k = ground (arith, h, k)
  if_kept false x y h k = (refl, refl)

  if_one :
      (b : Bool) (x y : Expectation)
      → b ≡ false
      → graded y ≡ true
      → graded (if b then x else y) ≡ true
  if_one true x y h k = ground (arith, h)
  if_one false x y h k = k

  agreed :
      (pid : String) (r : Observation) (rs : List Observation)
      → graded (freeze_probe sha dumps pid (r ∷ rs)) ≡ true
      → All (λ o. hash o ≡ hash r) rs × ((freeze_probe sha dumps pid (r ∷ rs)).digest ≡ hash r)
  unfolding freeze_probe
  agreed pid r rs g =
      let digests = distinct (map hash (r ∷ rs)) in
      let (few, is) = if_kept (ltb 1 (length digests)) _ _ refl g in
      let same = all_one (hash r) (map hash rs) (ground (arith, few)) in
      let one = distinct-one (hash r) (map hash rs) same in
      (All-unmap hash (λ d. d ≡ hash r) rs same, ap (λ e. e.digest) is ∙ ap pop_text one)

  agreeing :
      (pid : String) (r : Observation) (rs : List Observation)
      → All (λ o. hash o ≡ hash r) rs
      → graded (freeze_probe sha dumps pid (r ∷ rs)) ≡ true
  unfolding freeze_probe
  agreeing pid r rs h =
      let one = distinct-one (hash r) (map hash rs) (All-digests r rs h) in
      if_one (ltb 1 (length (distinct (map hash (r ∷ rs))))) _ _ (ap (λ ds. ltb 1 (length ds)) one)
        refl

  -- A probe is graded exactly if all of its runs have one digest, and that is what is expected.
  pub freeze_probe_exact :
      (pid : String) (r : Observation) (rs : List Observation)
      → ((graded (freeze_probe sha dumps pid (r ∷ rs)) ≡ true)
          ↔ All (λ o. digest sha dumps o ≡ digest sha dumps r) rs)
        × (graded (freeze_probe sha dumps pid (r ∷ rs)) ≡ true
            → (freeze_probe sha dumps pid (r ∷ rs)).digest ≡ digest sha dumps r)
  freeze_probe_exact pid r rs =
      ((λ g. (agreed pid r rs g).0, agreeing pid r rs), λ g. (agreed pid r rs g).1)

  -- Every run of the probe, and there is one, has the expected digest.
  pub record Unanimous (observed : Observed) (e : Expectation) : Type 0 where
    pub first : Observation
    pub others : List Observation
    pub seen : In (e.probe_id, first ∷ others) observed
    pub same : All (λ o. digest sha dumps o ≡ e.digest) (first ∷ others)

  later :
      (entry : String × List Observation) (observed : Observed) (e : Expectation)
      → Unanimous observed e
      → Unanimous (entry ∷ observed) e
  later entry observed e u = record {
    first = u.first;
    others = u.others;
    seen = inr u.seen;
    same = u.same;
  }

  never_ran : (pid : String) → graded (freeze_probe sha dumps pid []) ≡ true → ⊥
  unfolding freeze_probe
  never_ran pid g = ground (arith, g)

  if_named :
      (pid : String) (b : Bool) (x y : Expectation)
      → x.probe_id ≡ pid
      → y.probe_id ≡ pid
      → (if b then x else y).probe_id ≡ pid
  if_named pid true x y h k = h
  if_named pid false x y h k = k

  pub probe_id-freeze_probe :
      (pid : String) (runs : List Observation) → (freeze_probe sha dumps pid runs).probe_id ≡ pid
  unfolding freeze_probe
  probe_id-freeze_probe pid [] = refl
  probe_id-freeze_probe pid (r ∷ rs) =
      if_named pid (ltb 1 (length (distinct (map hash (r ∷ rs))))) _ _ refl refl

  probe-Unanimous :
      (pid : String) (runs : List Observation) (observed : Observed)
      → graded (freeze_probe sha dumps pid runs) ≡ true
      → Unanimous ((pid, runs) ∷ observed) (freeze_probe sha dumps pid runs)
  probe-Unanimous pid [] observed g = absurd (never_ran pid g)
  probe-Unanimous pid (r ∷ rs) observed g =
      let (same, is) = agreed pid r rs g in
      record {
        first = r;
        others = rs;
        seen = inl (ap (λ p. (p, r ∷ rs)) (sym (probe_id-freeze_probe pid (r ∷ rs))));
        same = (
          sym is,
          All-weaken (λ o. hash o ≡ hash r) (λ o. hash o ≡ _) rs (λ o h. h ∙ sym is) same,
        );
      }

  pub corpus-Unanimous :
      (observed : Observed)
      → All (Unanimous observed) (freeze_corpus sha dumps observed).expectations
  unfolding freeze_corpus
  corpus-Unanimous [] = tt
  corpus-Unanimous ((pid, runs) ∷ observed) =
      let rest =
        All-weaken (Unanimous observed) (Unanimous ((pid, runs) ∷ observed)) _
          (λ e. later (pid, runs) observed e) (corpus-Unanimous observed) in
      elim (Bool-cases (graded (freeze_probe sha dumps pid runs))) [
        | inl g ↦ rw g (probe-Unanimous pid runs observed g, rest)
        | inr g ↦ rw g rest
      ]

  -- No probe is lost: each is graded or discarded.
  pub attempted-freeze_corpus :
      (observed : Observed) → attempted (freeze_corpus sha dumps observed) ≡ length observed
  unfolding freeze_corpus
  attempted-freeze_corpus [] = omega arith
  attempted-freeze_corpus ((pid, runs) ∷ observed) =
      ground (arith, attempted-freeze_corpus observed)
