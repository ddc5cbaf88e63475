-- ===== src/Process/Laws/Counted.antt =====
-- The loop of the freeze: what it keeps true, and that it loses no scenario.
use frontier_refactor_factor.Prelude.{
  ◌+◌, count, ◌≡◌, refl, String, Bool, true, false, ◌||◌, Option, none, some, List, [], ◌∷◌, arith,
  length, has, eq_string, unique, str_eq_iff,
}
use frontier_refactor_factor.Exec.{Exec, lift}
use frontier_refactor_factor.Exec.Ensures.{
  Ensures, Ensures-pure, Ensures-lift, Ensures-bind, Ensures-skip, Ensures-if, Ensures-map,
}
use frontier_refactor_factor.Process.{Observation}
use frontier_refactor_factor.Process.Corpus.{Scenario}
use frontier_refactor_factor.Process.Tally.{Tallied, names, tally_scenario}
use frontier_refactor_factor.Process.Freeze.{freeze_loop}
use frontier_refactor_factor.Process.Laws.Frozen.{Sane, Stepped, tally_scenario-Next, ids}

module _ (sha : String → String) where
  -- Between two states of the loop: each of these scenarios is frozen or one more is dropped, and
  -- nothing else is frozen.
  pub record Counted (pids : List String) (t u : Tallied) : Type 0 where
    pub each : count (has (names u.frozen)) pids + u.dropped ≡ length pids + t.dropped
    pub no_other :
        (k : String) → has (names u.frozen) k ≡ true → (has (names t.frozen) k || has pids k) ≡ true
    pub keeps : (k : String) → has (names t.frozen) k ≡ true → has (names u.frozen) k ≡ true

  Counted-step :
      (pid : String) (pids : List String) (t u v : Tallied)
      → has pids pid ≡ false
      → has (names t.frozen) pid ≡ false
      → Stepped sha pid t u
      → Counted pids u v
      → Counted (pid ∷ pids) t v
  Counted-step pid pids t u v n f s c = record {
    each = ground (
      arith,
      c.each,
      s.one_dropped,
      c.keeps pid,
      c.no_other pid,
      s.frozen_names pid,
      n,
      f,
      str_eq_iff pid pid,
    );
    no_other = λ k h. ground (arith, c.no_other k h, s.frozen_names k);
    keeps = λ k h. c.keeps k (ground (arith, s.frozen_names k, h));
  }

  -- What the loop answers, if no deadline passed.
  abbrev pub Ends : List String → Tallied → Option Tallied → Type 0
  Ends pids t none = Unit
  Ends pids t (some u) = Sane sha [] u × Counted pids t u

  Ends-step :
      (pid : String) (pids : List String) (t u : Tallied) (end : Option Tallied)
      → has pids pid ≡ false
      → Sane sha (pid ∷ pids) t
      → Stepped sha pid t u
      → Ends pids u end
      → Ends (pid ∷ pids) t end
  Ends-step pid pids t u none n h s e = tt
  Ends-step pid pids t u (some v) n h s (k, c) =
      (k, Counted-step pid pids t u v n (ground (arith, h.fresh pid, str_eq_iff pid pid)) s c)

  module _ {W : Type 0} (is_digit : String → Bool) (late : Exec W Bool)
      (observe : Scenario → Exec W (List (List Observation))) where
    pub freeze_loop-Ends :
        (scenarios : List Scenario) (t : Tallied)
        → unique (ids sha scenarios) ≡ true
        → Sane sha (ids sha scenarios) t
        → Ensures (Ends (ids sha scenarios) t) (freeze_loop sha is_digit late observe scenarios t)
    unfolding freeze_loop
    freeze_loop-Ends [] t u h =
        Ensures-pure (some t)
          (h, record { each = refl; no_other = λ k m. ground (arith, m); keeps = λ k m. m })
    freeze_loop-Ends (s ∷ scenarios) t u h = Ensures-skip late _ λ stop.
        Ensures-if stop (λ _. Ensures-pure none tt)
          λ _. Ensures-skip (observe s) _ λ runs.
            Ensures-bind (lift (tally_scenario sha s runs t)) _
              (Ensures-lift (tally_scenario sha s runs t) λ t' e.
                tally_scenario-Next sha s (ids sha scenarios) runs t t' (ground (arith, u)) h e)
              λ t' (k, step).
                Ensures-map (freeze_loop-Ends scenarios t' (ground (arith, u)) k) λ end e.
                  Ends-step s.probe_id (ids sha scenarios) t t' end (ground (arith, u)) h step e
