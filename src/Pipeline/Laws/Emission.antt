-- ===== src/Pipeline/Laws/Emission.antt =====
-- What holds of every task that is emitted: the gates that it has passed.
use frontier_refactor_factor.Prelude.{ℕ, ◌≤◌, ◌≡◌, refl, Bool, true, not, ◌||◌, arith}
use frontier_refactor_factor.Evidence.{Battery}
use frontier_refactor_factor.Exec.{Exec, Result, ok, err, refusal, error}
use frontier_refactor_factor.Exec.Ensures.{>>=-eq-ok, lift-eq-ok, attempt-eq-ok}
use frontier_refactor_factor.Pipeline.Spec.{Candidate, Spec, specify}
use frontier_refactor_factor.Pipeline.Corpus.{Report, check_corpus, check_adequate, check_timing}
use frontier_refactor_factor.Pipeline.Hooks.{Scale, Hooks, Delivery}
use frontier_refactor_factor.Pipeline.Gates.{
  build_failed, probes_failed, freeze_failed, deferred_execution, check_battery,
}
use frontier_refactor_factor.Pipeline.Run.{
  Emitted, emitted, or_else, examine, run, conclude, build_one, has_evidence,
}
use frontier_refactor_factor.Pipeline.Laws.Accepted.{
  returns, has_diverse_answers, has_heavy_workload, check_corpus_exact, check_timing_exact,
}
use frontier_refactor_factor.Pipeline.Laws.Vouched.{IsVouched}
use frontier_refactor_factor.Pipeline.Laws.Delivered.{
  checks_execution, checks_image, deliver-IsDelivered,
}

-- A frozen corpus that the pipeline accepts.
pub record IsSound (enforce : Bool) (frozen : Report) : Type 0 where
  pub usable : frozen.usable ≡ true
  pub probes : 5 ≤ frozen.probes
  pub points : 40 ≤ frozen.graded_points
  pub diverse : (not enforce || has_diverse_answers frozen) ≡ true

IsSound-check_corpus :
    (enforce : Bool) (frozen : Report) (u : Unit {0})
    → check_corpus enforce frozen ≡ ok u
    → IsSound enforce frozen
IsSound-check_corpus enforce frozen u h =
    let e : returns (check_corpus enforce frozen) ≡ true = rw h in
    record {
      usable = ground (arith, check_corpus_exact enforce frozen);
      probes = ground (arith, check_corpus_exact enforce frozen);
      points = ground (arith, check_corpus_exact enforce frozen);
      diverse = ground (arith, check_corpus_exact enforce frozen);
    }

conclude-eq-emitted :
    (candidate : Candidate) (r : Result Emitted) (task : Emitted)
    → conclude candidate r ≡ ok (emitted task)
    → r ≡ ok task
unfolding conclude
conclude-eq-emitted candidate (ok t) task h = cc
conclude-eq-emitted candidate (err (refusal s)) task h = cc
conclude-eq-emitted candidate (err (error e)) task h = ground arith

module _ {W Source Observer : Type 0} (scale : Scale W Source Observer)
    (hooks : Hooks W Source Observer) (delivery : Delivery W) (enforce : Bool) where
  -- What a computation answers in a world, and the world that it leaves.
  abbrev Yields : {A : Type 0} → Exec W A → W → A → W → Type 0
  Yields m w a w' = m w ≡ (ok a, w')

  -- The stages before the corpus, each in the world that the one before it has left.
  pub record Frozen (candidate : Candidate) (freeze_runs : ℕ) (w : W) (spec : Spec)
      (observer : Observer) (frozen : Report) (w' : W) : Type 0 where
    pub proposed : Spec
    pub source : Source
    pub specified : W
    pub built : W
    pub drawn : W
    pub observed : W
    pub is_specified : Yields (specify scale.specifier candidate) w proposed specified
    pub is_built : Yields (hooks.build proposed) specified tt built
    pub is_drawn : Yields (scale.probes proposed) built source drawn
    pub is_observed : Yields scale.observe drawn observer observed
    pub is_refined : spec ≡ or_else (scale.refined_spec drawn) proposed
    pub is_frozen : Yields (hooks.freeze spec observer source freeze_runs) observed frozen w'

  -- The gates behind an emitted task: with the corpus as the freeze answered it, and as the
  -- adequacy stage did, which was given that one and ran right after.
  pub record Earned (candidate : Candidate) (freeze_runs : ℕ) (w : W) (task : Emitted)
      : Type 0 where
    pub spec : Spec
    pub observer : Observer
    pub frozen : Report
    pub repaired : Report
    pub battery : Battery
    pub at_freeze : W
    pub at_repair : W
    pub at_battery : W
    pub was_frozen : Frozen candidate freeze_runs w spec observer frozen at_freeze
    pub was_repaired : Yields (hooks.adequacy spec observer frozen) at_freeze repaired at_repair
    pub was_tested : Yields (hooks.battery spec observer repaired) at_repair battery at_battery
    pub sound : IsSound enforce frozen
    pub adequate : repaired.usable ≡ true
    pub heavy : has_heavy_workload repaired ≡ true
    pub same_probes : task.probes ≡ repaired.probes
    pub same_points : task.graded_points ≡ repaired.graded_points
    pub vouched :
        IsVouched
          (checks_execution scale hooks delivery enforce)
          (checks_image scale hooks delivery enforce)
          task.battery

  examine-Earned :
      (candidate : Candidate) (freeze_runs : ℕ) (v : W) (spec : Spec) (observer : Observer)
      (frozen : Report) (w : W) (task : Emitted)
      → Frozen candidate freeze_runs v spec observer frozen w
      → (examine scale hooks delivery enforce spec observer frozen w).0 ≡ ok task
      → Earned candidate freeze_runs v task
  unfolding examine
  examine-Earned candidate freeze_runs v spec observer frozen w task was e =
      let (u1, c1, e1) = lift-eq-ok (check_corpus enforce frozen) _ w task e in
      let (repaired, w2, c2, e2) = >>=-eq-ok (hooks.adequacy spec observer frozen) _ w task e1 in
      let (u3, c3, e3) = lift-eq-ok (check_adequate repaired) _ w2 task e2 in
      let (u4, c4, e4) = lift-eq-ok (check_timing repaired) _ w2 task e3 in
      let (battery, w5, c5, e5) = >>=-eq-ok (hooks.battery spec observer repaired) _ w2 task e4 in
      let (u6, c6, e6) =
        lift-eq-ok
          (check_battery (deferred_execution (has_evidence scale hooks delivery enforce) battery)
            battery)
          _ w5 task e5 in
      let (probes, points, vouched) =
        (deliver-IsDelivered scale hooks delivery enforce spec repaired battery).at w5 task e6 in
      let returned_adequate : returns (check_adequate repaired) ≡ true = rw c3 refl in
      let returned_timing : returns (check_timing repaired) ≡ true = rw c4 refl in
      record {
        spec = spec;
        observer = observer;
        frozen = frozen;
        repaired = repaired;
        battery = battery;
        at_freeze = w;
        at_repair = w2;
        at_battery = w5;
        was_frozen = was;
        was_repaired = c2;
        was_tested = c5;
        sound = IsSound-check_corpus enforce frozen u1 c1;
        adequate = ground (arith, check_timing_exact repaired, returned_adequate, returned_timing);
        heavy = ground (arith, check_timing_exact repaired, returned_adequate, returned_timing);
        same_probes = probes;
        same_points = points;
        vouched = vouched;
      }

  run-Earned :
      (candidate : Candidate) (freeze_runs : ℕ) (w : W) (task : Emitted)
      → (run scale hooks delivery enforce candidate freeze_runs w).0 ≡ ok task
      → Earned candidate freeze_runs w task
  unfolding run
  run-Earned candidate freeze_runs w task e =
      let (proposed, w1, c1, e1) = >>=-eq-ok (specify scale.specifier candidate) _ w task e in
      let (u2, w2, c2, e2) = attempt-eq-ok build_failed (hooks.build proposed) _ w1 task e1 in
      let (source, w3, c3, e3) = attempt-eq-ok probes_failed (scale.probes proposed) _ w2 task e2 in
      let (observer, w4, c4, e4) = >>=-eq-ok scale.observe _ w3 task e3 in
      let spec = or_else (scale.refined_spec w3) proposed in
      let (frozen, w5, c5, e5) =
        attempt-eq-ok freeze_failed (hooks.freeze spec observer source freeze_runs) _ w4 task e4 in
      examine-Earned candidate freeze_runs w spec observer frozen w5 task
        (record {
          proposed = proposed;
          source = source;
          specified = w1;
          built = w2;
          drawn = w3;
          observed = w4;
          is_specified = c1;
          is_built = c2;
          is_drawn = c3;
          is_observed = c4;
          is_refined = refl;
          is_frozen = c5;
        })
        e5

  -- A task is emitted only if, each in the world that the one before it has left, the candidate was
  -- specified, the reference built, probes drawn, and a corpus frozen of them by the hook; the
  -- adequacy stage answered another for that corpus, and the battery ran on it. The corpus as
  -- frozen was usable, had five probes and forty graded points, and diverse answers where that is
  -- enforced; the corpus as repaired is usable and its workload heavy enough to time, and its
  -- counts are the task's; and the battery of the task is not empty, every verdict in it is ok,
  -- and it holds the replay of the package, the isolation of its execution and the replay in its
  -- own image, the last two where their hooks are there.
  pub build_one-Earned :
      (candidate : Candidate) (freeze_runs : ℕ) (w : W) (task : Emitted)
      → (build_one scale hooks delivery enforce candidate freeze_runs w).0 ≡ ok (emitted task)
      → Earned candidate freeze_runs w task
  unfolding build_one
  build_one-Earned candidate freeze_runs w task h =
      let (r, w') = run scale hooks delivery enforce candidate freeze_runs w in
      run-Earned candidate freeze_runs w task (conclude-eq-emitted candidate r task (ground arith))
