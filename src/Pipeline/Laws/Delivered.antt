-- ===== src/Pipeline/Laws/Delivered.antt =====
-- What the end of a candidate's run keeps of the corpus, and records in the battery.
use frontier_refactor_factor.Prelude.{ℕ, String, ◌≡◌, refl, Bool, true, arith, drop, length}
use frontier_refactor_factor.Evidence.{Battery, battery_ok, record_verdict}
use frontier_refactor_factor.Evidence.Checks.{package_reproduces_itself}
use frontier_refactor_factor.Exec.{ok, lift, attempt, pure, ◌>>=◌, ◌>>◌}
use frontier_refactor_factor.Exec.Ensures.{
  Ensures, Ensures-pure, Ensures-lift, Ensures-bind, Ensures-skip,
}
use frontier_refactor_factor.Pipeline.Spec.{Spec}
use frontier_refactor_factor.Pipeline.Corpus.{Report}
use frontier_refactor_factor.Pipeline.Hooks.{Scale, Hooks, Delivery}
use frontier_refactor_factor.Pipeline.Gates.{
  deferred_execution, check_late, check_quality, check_replay, check_resolved, replay_failed,
}
use frontier_refactor_factor.Pipeline.Run.{
  Emitted, emitted_task, settle_execution, settle_image, attest, deliver, has_evidence,
}
use frontier_refactor_factor.Pipeline.Laws.Established.{is_established}
use frontier_refactor_factor.Pipeline.Laws.Vouched.{
  is_some, IsVouched, replay_check, replay_established, established-record,
  settle_execution-Settled, settle_image-IsVouched,
}

battery_ok-check_resolved :
    (b : Battery) (u : Unit {0}) → check_resolved b ≡ ok u → battery_ok b ≡ true
unfolding check_resolved
battery_ok-check_resolved b u h = ground arith

module _ {W Source Observer : Type 0} (scale : Scale W Source Observer)
    (hooks : Hooks W Source Observer) (delivery : Delivery W) (enforce : Bool) where
  abbrev pub checks_execution : Bool
  checks_execution = is_some hooks.execution_evidence

  abbrev pub checks_image : Bool
  checks_image = is_some hooks.replay_in_image

  abbrev pub IsDelivered : Report → Emitted → Type 0
  IsDelivered report e =
      (e.probes ≡ report.probes)
      × (e.graded_points ≡ report.graded_points)
      × IsVouched checks_execution checks_image e.battery

  settled-IsDelivered :
      (spec : Spec) (report : Report) (battery : Battery) (path : String) (written : Battery)
      (score : ℕ × ℕ)
      → is_established replay_check (package_reproduces_itself score) ≡ true
      → Ensures (IsDelivered report) (do
        settled ←
            settle_execution hooks.execution_evidence
              (deferred_execution (has_evidence scale hooks delivery enforce) battery)
              path
              score
              (record_verdict written (package_reproduces_itself score))
        lift (check_resolved settled)
        final ← settle_image hooks.replay_in_image path settled
        delivery.purge_task_bytecode path
        sidecar ← delivery.build_attestation spec report final score
        attest (delivery.write_attestation path sidecar)
        pure (emitted_task spec path report final))
  settled-IsDelivered spec report battery path written score good =
      Ensures-bind
        (settle_execution hooks.execution_evidence (deferred_execution checks_execution battery)
          path score (record_verdict written (package_reproduces_itself score)))
        _
        (settle_execution-Settled hooks.execution_evidence checks_execution battery path score
          (record_verdict written (package_reproduces_itself score))
          (ground
            (arith, established-record replay_check written (package_reproduces_itself score))))
        λ settled s.
          Ensures-bind (lift (check_resolved settled)) _
            (Ensures-lift _ (battery_ok-check_resolved settled))
            λ _ resolved.
              Ensures-bind (settle_image hooks.replay_in_image path settled) _
                (settle_image-IsVouched hooks.replay_in_image checks_execution path settled s
                  resolved)
                λ final vouched. Ensures-skip (delivery.purge_task_bytecode path) _ λ _.
                  Ensures-skip (delivery.build_attestation spec report final score) _ λ sidecar.
                    Ensures-skip (attest (delivery.write_attestation path sidecar)) _
                      λ _. Ensures-pure (emitted_task spec path report final) (refl, refl, vouched)

  pub deliver-IsDelivered :
      (spec : Spec) (report : Report) (battery : Battery)
      → Ensures (IsDelivered report) (deliver scale hooks delivery enforce spec report battery)
  unfolding deliver
  deliver-IsDelivered spec report battery =
      Ensures-skip (hooks.emit spec report battery) _ λ (path, written).
        Ensures-skip (lift (check_late (drop (length battery.verdicts) written.verdicts))) _ λ late.
          Ensures-skip (delivery.deterministic_quality path) _ λ errors.
            Ensures-skip (lift (check_quality errors)) _ λ quality.
              Ensures-skip (attempt replay_failed (hooks.replay path)) _ λ score.
                Ensures-bind (lift (check_replay (package_reproduces_itself score))) _
                  (Ensures-lift _ (replay_established score))
                  λ _ good. settled-IsDelivered spec report battery path written score good
