-- ===== src/Call/Laws/Runs.antt =====
-- What the runs of the freeze have observed, and what it answers.
use frontier_refactor_factor.Prelude.{
  ℕ, zero, suc, ◌≡◌, refl, ap, sym, subst, ◌∙◌, String, Bool, true, false, Option, none, some, List,
  [], ◌∷◌, map, if◌then◌else◌, arith, has, unique, eq_string,
}
use frontier_refactor_factor.Exec.{Exec, Raised, Result, ok, err, refusal, error, pure, ◌>>=◌}
use frontier_refactor_factor.Exec.Ensures.{
  Ensures, Ensures-pure, Ensures-bind, Ensures-skip, Ensures-if, ok-injective,
}
use frontier_refactor_factor.Compare.{Value, Policy, Units}
use frontier_refactor_factor.Call.{Observation}
use frontier_refactor_factor.Call.Corpus.{
  Corpus, Observed, append_answer, append_answers, number_inputs,
}
use frontier_refactor_factor.Call.Freeze.{
  Subject, Observer, enter, call_each, one_run, run_all, in_block, unobserved, freeze, after_runs,
  is_mute,
}
use frontier_refactor_factor.Call.Laws.Timed.{observed_ids}
use frontier_refactor_factor.Call.Laws.Sound.{Sound, conclude-Sound}
use frontier_refactor_factor.Call.Laws.Names.{
  input_ids, number_inputs-unique, append_answer-names, append_answers-names, Known, Named,
  Known-self,
}

unobserved-names :
    {W Args : Type 0} (late : Exec W Bool) (observer : Observer W Args)
    (items : List (String × Args))
    → observed_ids (unobserved late observer items) ≡ input_ids items
unobserved-names late observer [] = refl
unobserved-names late observer ((pid, a) ∷ items) =
    ap (λ ks. pid ∷ ks) (unobserved-names late observer items)

module _ {W Args : Type 0} (late : Exec W Bool) (observer : Observer W Args) where
  entered :
      {A : Type 0} (P : A → Type 0) (body : Subject W Args → Exec W A)
      → ((s : Subject W Args) → Ensures P (body s))
      → (start : Result (Subject W Args) × W) (a : A) → (enter late observer start body).0 ≡ ok a
      → P a
  entered P body h (ok s, w) a e = (h s).at w a e
  entered P body h (err x, w) a e = cc

  Ensures-block :
      {A : Type 0} (P : A → Type 0) (body : Subject W Args → Exec W A)
      → ((s : Subject W Args) → Ensures P (body s))
      → Ensures P (in_block late observer body)
  Ensures-block P body h = record { at = λ w a e. entered P body h (observer.start w) a e }

  call_each-Named :
      (names : List String) (subject : Subject W Args) (items : List (String × Args)) (d : Observed)
      → observed_ids d ≡ names
      → Known names items
      → Ensures (Named names) (call_each late observer subject items d)
  unfolding call_each
  call_each-Named names subject [] d e h = Ensures-pure (some d) e
  call_each-Named names subject ((pid, a) ∷ items) d e (h, hs) = Ensures-skip late _ λ stop.
      Ensures-if stop (λ _. Ensures-pure none tt)
        λ _. Ensures-skip (subject.call a) _ λ o.
          call_each-Named names subject items (append_answer pid o d)
            (append_answer-names pid o d (subst (λ ns. has ns pid ≡ true) (sym e) h) ∙ e) hs

  by_kind :
      (names : List String) (items : List (String × Args)) (d : Observed) (subject : Subject W Args)
      (call_many : Option (List Args → Exec W (List Observation)))
      → observed_ids d ≡ names
      → Known names items
      → Ensures (Named names) (elim call_many as (λ _. Exec W (Option Observed)) [
        | none ↦ call_each late observer subject items d
        | some call_many ↦ call_many (map (λ (pid, a). a) items) >>= λ answers.
            pure (some (append_answers items answers d))
      ])
  by_kind names items d subject none e h = call_each-Named names subject items d e h
  by_kind names items d subject (some call_many) e h =
      Ensures-skip (call_many (map (λ (pid, a). a) items)) _ λ answers.
        Ensures-pure (some (append_answers items answers d))
          (append_answers-names items answers d (subst (λ ns. Known ns items) (sym e) h) ∙ e)

  one_run-Named :
      (names : List String) (items : List (String × Args)) (d : Observed) (subject : Subject W Args)
      → observed_ids d ≡ names
      → Known names items
      → Ensures (Named names) (one_run late observer items d subject)
  unfolding one_run
  one_run-Named names items d subject e h = by_kind names items d subject subject.call_many e h

  next_run :
      (n : ℕ) (names : List String) (items : List (String × Args))
      → Known names items
      → (end : Option Observed) → Named names end
      → ((d : Observed)
          → observed_ids d ≡ names
          → Known names items
          → Ensures (Named names) (run_all late observer n items d))
      → Ensures (Named names) (elim end as (λ _. Exec W (Option Observed)) [
        | none ↦ pure none
        | some d ↦ run_all late observer n items d
      ])
  next_run n names items h none q go = Ensures-pure none tt
  next_run n names items h (some d) q go = go d q h

  run_all-Named :
      (n : ℕ) (names : List String) (items : List (String × Args)) (d : Observed)
      → observed_ids d ≡ names
      → Known names items
      → Ensures (Named names) (run_all late observer n items d)
  unfolding run_all
  run_all-Named zero names items d e h = Ensures-pure (some d) e
  run_all-Named (suc n) names items d e h = Ensures-skip late _ λ stop.
      Ensures-if stop (λ _. Ensures-pure none tt)
        λ _.
          Ensures-bind (in_block late observer (one_run late observer items d)) _
            (Ensures-block (Named names) (one_run late observer items d)
              (λ s. one_run-Named names items d s e h))
            λ end q. next_run n names items h end q (run_all-Named n names items)

  module _ (sha : String → String) (dumps : Bool → Value → String → String) where
    -- The runs ended and have observed every probe, and the corpus is sound of what they observed.
    pub record SoundOf (names : List String) (end : Result (Option Observed)) (c : Corpus Args)
        : Type 0 where
      pub observed : Observed
      pub seen : end ≡ ok (some observed)
      pub named : observed_ids observed ≡ names
      pub sound : Sound sha dumps observed c

    unmute :
        (names : List String) (end : Result (Option Observed)) (b : Bool) (c d : Corpus Args)
        (x : Raised)
        → c.usable ≡ false
        → (if b then ok c else err x) ≡ ok d
        → d.usable ≡ true
        → SoundOf names end d
    unmute names end true c d x h e u =
        let same = ok-injective e in ground (arith, h, u, ap (λ y. y.usable) same)
    unmute names end false c d x h e u = cc

    after_runs-Sound :
        (numeric : Option (Policy × Units)) (inputs : List (String × Args)) (seconds : ℕ)
        (r : Result (Option Observed)) (c : Corpus Args)
        → unique (input_ids inputs) ≡ true
        → ((end : Option Observed) → r ≡ ok end → Named (input_ids inputs) end)
        → after_runs late observer sha dumps numeric inputs seconds r ≡ ok c
        → c.usable ≡ true
        → SoundOf (input_ids inputs) r c
    after_runs-Sound numeric inputs seconds (ok none) c u n e v =
        let same = ok-injective e in ground (arith, v, ap (λ y. y.usable) same)
    after_runs-Sound numeric inputs seconds (ok (some d)) c u n e v =
        let same = ok-injective e in
        let named = n (some d) refl in
        record {
          observed = d;
          seen = refl;
          named = named;
          sound =
              subst (Sound sha dumps d) same
                (conclude-Sound sha dumps numeric inputs d named u (ap (λ y. y.usable) same ∙ v));
        }
    after_runs-Sound numeric inputs seconds (err (refusal s)) c u n e v = cc
    after_runs-Sound numeric inputs seconds (err (error x)) c u n e v =
        unmute (input_ids inputs) (err (error x)) (is_mute x.class) _ c (error x) refl e v

    -- Whatever the clock says, the subject answers and the transport raises: if the freeze answers a
    -- usable corpus, the runs have ended in time, with observations of every probe that was drawn,
    -- and of these the corpus is sound: no probe is both graded and timed; all the runs of a graded
    -- probe have its expected digest; some graded probe was answered, and so was every timed one;
    -- two graded digests differ; and at most a quarter of the probes was discarded.
    pub freeze-SoundOf :
        (numeric : Option (Policy × Units)) (drawn : List Args) (runs seconds : ℕ) (w : W)
        (c : Corpus Args)
        → (freeze late observer sha dumps numeric drawn runs seconds w).0 ≡ ok c
        → c.usable ≡ true
        → let inputs = number_inputs 0 drawn in
          SoundOf
            (input_ids inputs)
            (run_all late observer runs inputs (unobserved late observer inputs) w).0
            c
    unfolding freeze
    freeze-SoundOf numeric drawn runs seconds w c e =
        let inputs = number_inputs 0 drawn in
        let named =
          run_all-Named runs (input_ids inputs) inputs (unobserved late observer inputs)
            (unobserved-names late observer inputs) (Known-self inputs) in
        let (r, w') = run_all late observer runs inputs (unobserved late observer inputs) w in
        after_runs-Sound numeric inputs seconds r c (number_inputs-unique 0 drawn)
          (λ end q. named.at w end q) e
