-- ===== src/Process/Laws/Battery.antt =====
-- The verifier notices every channel that moves.
use frontier_refactor_factor.Prelude.{
  ℕ, suc, ◌≡◌, refl, String, Bool, true, ◌&&◌, Option, none, some, List, [], ◌∷◌, map, any, is_nil,
  ◌==◌, ltb, if◌then◌else◌, arith, Bool-cases, inl, inr, get_elem?,
}
use frontier_refactor_factor.Evidence.{holds, inconclusive, verdict_ok, battery_ok, record_verdict}
use frontier_refactor_factor.Evidence.Checks.{floor, channels_bite}
use frontier_refactor_factor.Evidence.Laws.Channels.{channels_bite_lem}
use frontier_refactor_factor.Evidence.Laws.Exact.{ceiling_ok, points_ok, delegate_ok}
use frontier_refactor_factor.Process.{
  channels, channel_name, Observation, Channel, exit_channel, stdout_channel, stderr_channel,
  tree_channel, channel_of, Expectation, grade, grade_over, grade_channel,
}
use frontier_refactor_factor.Process.Corpus.{Corpus, score, Observed, observed_of}
use frontier_refactor_factor.Process.Battery.{
  moved, only, perturb_step, perturb_steps, perturb, Mode, reference, submission, mutated,
  channel_named, battery, steps_touching_subject, trivial,
}
use frontier_refactor_factor.Process.Laws.Grading.{exit_marks, stream_marks}

module _ (sha : String → String) where
  targeted :
      (e : Expectation) (a : Observation) (c : Channel)
      → (channel_of e c).graded ≡ true
      → ((grade sha (only e c) a).1 ≡ 1)
        × ((grade sha (only e c) a).0 ≡ (if moved sha e a c then 0 else 1))
  unfolding grade grade_over grade_channel moved
  targeted e a exit_channel g = ground (arith, g, exit_marks sha e.step e.exit_code a.exit_code)
  targeted e a stdout_channel g =
      ground (arith, g, stream_marks sha e.step "stdout" e.stdout a.stdout)
  targeted e a stderr_channel g =
      ground (arith, g, stream_marks sha e.step "stderr" e.stderr a.stderr)
  targeted e a tree_channel g = ground (arith, g, stream_marks sha e.step "tree" e.tree a.tree)

  step_noticed :
      (c : Channel) (e : Expectation) (o : Option Observation)
      → (perturb_step sha c e o).1 ≡ (perturb_step sha c e o).0
  unfolding perturb_step
  step_noticed c e none = refl
  step_noticed c e (some a) = elim (Bool-cases (channel_of e c).graded) [
    | inl g ↦ ground (arith, g, targeted e a c g)
    | inr g ↦ ground (arith, g)
  ]

  steps_noticed :
      (c : Channel) (os : List Observation) (i : ℕ) (es : List Expectation)
      → (perturb_steps sha c os i es).1 ≡ (perturb_steps sha c os i es).0
  unfolding perturb_steps
  steps_noticed c os i [] = refl
  steps_noticed c os i (e ∷ es) =
      ground (arith, step_noticed c e (get_elem? os i), steps_noticed c os (suc i) es)

  pub perturb_noticed :
      (es : List (String × List Expectation)) (observed : Observed) (c : Channel)
      → (perturb sha es observed c).1 ≡ (perturb sha es observed c).0
  unfolding perturb
  perturb_noticed [] observed c = refl
  perturb_noticed ((pid, steps) ∷ es) observed c =
      ground
        (arith, steps_noticed c (observed_of observed pid) 0 steps, perturb_noticed es observed c)

  -- E3 on this seam holds if some channel was made to differ on a graded step, and is inconclusive
  -- if none was: whatever differs is noticed, so that it never fails.
  pub bites_exact :
      (es : List (String × List Expectation)) (run_all : Mode → Observed)
      → (channels_bite
          (λ name. perturb sha es (run_all (mutated (channel_named name))) (channel_named name))
          (map channel_name channels)).outcome
        ≡ (if any (λ c. (perturb sha es (run_all (mutated c)) c).0) channels
            then holds
            else inconclusive)
  bites_exact es run_all =
      let p = λ (name : String).
        perturb sha es (run_all (mutated (channel_named name))) (channel_named name) in
      let noticed = λ (c : Channel). perturb_noticed es (run_all (mutated c)) c in
      ground (
        arith,
        channels_bite_lem p (map channel_name channels),
        noticed exit_channel,
        noticed stdout_channel,
        noticed stderr_channel,
        noticed tree_channel,
      )

  -- The battery is passed exactly if the reference, run again, has full marks of a positive total,
  -- no trivial submission makes the floor fail, some channel was made to differ, every graded step
  -- (and there is one) invokes the program, and nothing forbidden is installed under isolation.
  pub battery_exact :
      (run_all : Mode → Observed) (forbidden : List String) (isolated : Bool) (corpus : Corpus)
      → let es = corpus.expectations in
        let (passed, total) = score sha es (run_all reference) in
        let (touching, steps) = steps_touching_subject corpus in
        battery_ok (battery sha run_all forbidden isolated corpus) ≡ (
          ltb 0 total
          && passed == total
          && (verdict_ok (floor (λ name. score sha es (run_all (submission name))) trivial)
              && (any (λ c. (perturb sha es (run_all (mutated c)) c).0) channels
                  && (ltb 0 steps && touching == steps && (is_nil forbidden && isolated)))))
  unfolding battery battery_ok record_verdict
  battery_exact run_all forbidden isolated corpus =
      let es = corpus.expectations in
      ground (
        arith,
        ceiling_ok (score sha es (run_all reference)),
        bites_exact es run_all,
        points_ok (steps_touching_subject corpus) true,
        delegate_ok forbidden isolated,
      )
