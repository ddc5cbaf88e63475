-- ===== src/Process/Laws/Replay.antt =====
-- The reference, run again, has full marks for what it does every time.
use frontier_refactor_factor.Prelude.{
  ℕ, zero, suc, ◌≡◌, refl, sym, subst, String, Option, none, some, List, [], ◌∷◌, ltb, arith,
  length, get_elem?, All, In, All-In,
}
use frontier_refactor_factor.Evidence.{verdict_ok}
use frontier_refactor_factor.Evidence.Checks.{ceiling}
use frontier_refactor_factor.Evidence.Laws.Exact.{ceiling_ok}
use frontier_refactor_factor.Process.{Observation, Expectation, freeze_step, grade}
use frontier_refactor_factor.Process.Corpus.{
  or_missing, score_steps, score, Observed, observed_of, steps_points, expectations_points,
}
use frontier_refactor_factor.Process.Tally.{◌>>=◌, column, freeze_steps}
use frontier_refactor_factor.Process.Laws.Steps.{runs_full, grade-graded_points}

pub bind-some :
    {A B : Type 0} (m : Option A) (f : A → Option B) (b : B)
    → (m >>= f) ≡ some b
    → (a : A) × (m ≡ some a) × (f a ≡ some b)
bind-some none f b e = ground (arith, e)
bind-some (some a) f b e = (a, refl, e)

column-All :
    (P : Observation → Type 0) (i : ℕ) (runs : List (List Observation)) (os : List Observation)
    → column i runs ≡ some os
    → All P os
    → All (λ run. P (or_missing (get_elem? run i))) runs
unfolding column
column-All P i [] os e h = tt
column-All P i (run ∷ runs) os e h =
    let (o, at, next) =
      bind-some (get_elem? run i) (λ o. column i runs >>= λ os'. some (o ∷ os')) os e in
    let (os', rest, last) = bind-some (column i runs) (λ os'. some (o ∷ os')) os next in
    let same : o ∷ os' ≡ os = cc last in
    let (p, ps) = subst (All P) (sym same) h in
    (subst (λ x. P (or_missing x)) (sym at) p, column-All P i runs os' rest ps)

module _ (sha : String → String) where
  step_full :
      (i : ℕ) (os : List Observation)
      → All
          (λ o. (grade sha (freeze_step sha i os) o).0 ≡ (grade sha (freeze_step sha i os) o).1)
          os
  step_full i [] = tt
  step_full i (r ∷ rs) = runs_full sha i r rs

  all_full :
      (e : Expectation) (i : ℕ) (es : List Expectation) (runs : List (List Observation))
      → All
          (λ run.
            (grade sha e (or_missing (get_elem? run i))).0
            ≡ (grade sha e (or_missing (get_elem? run i))).1)
          runs
      → All (λ run. (score_steps sha run (suc i) es).0 ≡ (score_steps sha run (suc i) es).1) runs
      → All (λ run. (score_steps sha run i (e ∷ es)).0 ≡ (score_steps sha run i (e ∷ es)).1) runs
  unfolding score_steps
  all_full e i es [] h k = tt
  all_full e i es (run ∷ runs) (h, hs) (k, ks) = (omega (arith, h, k), all_full e i es runs hs ks)

  none_full :
      (i : ℕ) (runs : List (List Observation))
      → All (λ run. (score_steps sha run i []).0 ≡ (score_steps sha run i []).1) runs
  unfolding score_steps
  none_full i [] = tt
  none_full i (run ∷ runs) = (refl, none_full i runs)

  -- Every run has full marks for the steps that the runs froze to.
  pub freeze_steps-full :
      (i n : ℕ) (runs : List (List Observation)) (es : List Expectation)
      → freeze_steps sha i n runs ≡ some es
      → All (λ run. (score_steps sha run i es).0 ≡ (score_steps sha run i es).1) runs
  unfolding freeze_steps
  freeze_steps-full i zero runs es e =
      let same : [] ≡ es = cc e in
      subst (λ es. All (λ run. (score_steps sha run i es).0 ≡ (score_steps sha run i es).1) runs)
        same (none_full i runs)
  freeze_steps-full i (suc n) runs es e =
      let (os, at, next) =
        bind-some (column i runs)
          (λ os. freeze_steps sha (suc i) n runs >>= λ rest. some (freeze_step sha i os ∷ rest)) es
          e in
      let (rest, later, last) =
        bind-some (freeze_steps sha (suc i) n runs) (λ rest. some (freeze_step sha i os ∷ rest)) es
          next in
      let same : freeze_step sha i os ∷ rest ≡ es = cc last in
      subst (λ es. All (λ run. (score_steps sha run i es).0 ≡ (score_steps sha run i es).1) runs)
        same
        (all_full (freeze_step sha i os) i rest runs
          (column-All
            (λ o. (grade sha (freeze_step sha i os) o).0 ≡ (grade sha (freeze_step sha i os) o).1) i
            runs os at (step_full i os))
          (freeze_steps-full (suc i) n runs rest later))

  steps-points :
      (os : List Observation) (i : ℕ) (es : List Expectation)
      → (score_steps sha os i es).1 ≡ steps_points es
  unfolding score_steps
  steps-points os i [] = refl
  steps-points os i (e ∷ es) =
      omega
        (arith, grade-graded_points sha e (or_missing (get_elem? os i)), steps-points os (suc i) es)

  -- Of each scenario the observer has seen one of the runs that its steps were frozen from.
  pub record Repeats (observed : Observed) (entry : String × List Expectation) : Type 0 where
    pub runs : List (List Observation)
    pub from_runs : freeze_steps sha 0 (length entry.1) runs ≡ some entry.1
    pub again : In (observed_of observed entry.0) runs

  pub score-Repeats :
      (es : List (String × List Expectation)) (observed : Observed)
      → All (Repeats observed) es
      → ((score sha es observed).0 ≡ expectations_points es)
        × ((score sha es observed).1 ≡ expectations_points es)
  unfolding score
  score-Repeats [] observed h = (refl, refl)
  score-Repeats ((pid, steps) ∷ es) observed (h, hs) =
      let full =
        All-In (λ run. (score_steps sha run 0 steps).0 ≡ (score_steps sha run 0 steps).1) h.runs
          (observed_of observed pid) (freeze_steps-full 0 (length steps) h.runs steps h.from_runs)
          h.again in
      let points = steps-points (observed_of observed pid) 0 steps in
      let (p, t) = score-Repeats es observed hs in
      (omega (arith, full, points, p), omega (arith, points, t))

  -- E1 on this seam: a reference that does again what it did in some of its runs passes the check
  -- exactly if the corpus has a point.
  pub ceiling-Repeats :
      (es : List (String × List Expectation)) (observed : Observed)
      → All (Repeats observed) es
      → verdict_ok (ceiling (score sha es observed)) ≡ ltb 0 (expectations_points es)
  ceiling-Repeats es observed h =
      let (p, t) = score-Repeats es observed h in
      ground (arith, ceiling_ok (score sha es observed), p, t)
