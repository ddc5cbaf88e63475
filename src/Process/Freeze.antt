-- ===== src/Process/Freeze.antt =====
-- `freeze` of frf/observe/process/stages.py. The clock and the observer act on the world `W`:
-- `observe` runs a scenario as often as it is asked to, or answers what a batch has observed of it.
use frontier_refactor_factor.Prelude.{
  ℕ, String, Bool, Option, none, some, List, [], ◌∷◌, if◌then◌else◌, length, lit,
}
use frontier_refactor_factor.Exec.{Exec, Result, ok, pure, lift, ◌>>=◌}
use frontier_refactor_factor.Process.{Observation}
use frontier_refactor_factor.Process.Corpus.{Scenario, Corpus}
use frontier_refactor_factor.Process.Timing.{Feature}
use frontier_refactor_factor.Process.Tally.{
  Tallied, tally_scenario, conclude, empty_corpus, nothing_yet,
}

module _ (sha : String → String) (is_digit : String → Bool) {W : Type 0} (late : Exec W Bool)
    (observe : Scenario → Exec W (List (List Observation))) where
  -- The loop; `none` is what a deadline that has passed answers.
  unfoldable pub freeze_loop : List Scenario → Tallied → Exec W (Option Tallied)
  unfolding tally_scenario
  freeze_loop [] t = pure (some t)
  freeze_loop (s ∷ scenarios) t = do
    stop ← late
    if stop then pure none else (do
      runs ← observe s
      t' ← lift (tally_scenario sha s runs t)
      freeze_loop scenarios t')

  abbrev pub after_loop :
      List (String × Feature) → List Scenario → ℕ → Option Tallied → Result Corpus
  after_loop features scenarios runs none = ok (empty_corpus (length scenarios) runs (lit ""))
  after_loop features scenarios runs (some t) = conclude sha is_digit features scenarios runs t

  unfoldable pub freeze : List (String × Feature) → List Scenario → ℕ → Exec W Corpus
  unfolding freeze_loop conclude
  freeze features scenarios runs = do
    end ← freeze_loop scenarios nothing_yet
    lift (after_loop features scenarios runs end)
