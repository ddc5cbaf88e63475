-- ===== src/Pipeline/Laws/Vouched.antt =====
-- The verdicts that vouch for an emitted task: what settling the deferred check and the shipped
-- image adds to the battery, and keeps of it.
use frontier_refactor_factor.Prelude.{
  ℕ, ◌≡◌, ◌≢◌, String, Bool, true, false, not, ◌||◌, Option, none, some, List, arith, str_eq_iff,
}
use frontier_refactor_factor.Evidence.{
  holds, Verdict, outcome_eq, verdict_ok, Battery, record_verdict, battery_ok,
}
use frontier_refactor_factor.Evidence.Checks.{
  ImageOutcome, package_reproduces_itself, reproduces_in_its_own_image,
}
use frontier_refactor_factor.Exec.{Exec, ok, lift, attempt}
use frontier_refactor_factor.Exec.Ensures.{
  Ensures, Ensures-pure, Ensures-lift, Ensures-bind, Ensures-any,
}
use frontier_refactor_factor.Pipeline.Gates.{
  deferred_execution, delegation_check, check_replay, check_execution, check_image, image_failed,
}
use frontier_refactor_factor.Pipeline.Run.{without, settle_execution, settle_image}
use frontier_refactor_factor.Pipeline.Laws.Established.{
  established, is_established, established-append, established-without, battery_ok-record,
}

abbrev pub is_some {ℓ} : {A : Type ℓ} → Option A → Bool
is_some none = false
is_some (some a) = true

abbrev pub replay_check : String
replay_check = "package-reproduces-itself"

abbrev pub image_check : String
image_check = "reproduces-in-its-own-image"

-- `replay` and `image` say whether those optional hooks are there.
pub record IsVouched (evidence image : Bool) (vs : List Verdict) : Type 0 where
  pub all_ok : battery_ok (record { verdicts = vs }) ≡ true
  pub reproduces : established replay_check vs ≡ true
  pub isolated : (established delegation_check vs || not evidence) ≡ true
  pub in_image : (established image_check vs || not image) ≡ true

check-package_reproduces_itself :
    (score : ℕ × ℕ) → (package_reproduces_itself score).check ≡ replay_check
unfolding package_reproduces_itself
check-package_reproduces_itself score = ground arith

holds-package_reproduces_itself :
    (score : ℕ × ℕ)
    → verdict_ok (package_reproduces_itself score) ≡ true
    → outcome_eq (package_reproduces_itself score).outcome holds ≡ true
unfolding package_reproduces_itself
holds-package_reproduces_itself score h = ground arith

check-reproduces_in_its_own_image :
    (o : ImageOutcome) → (reproduces_in_its_own_image o).check ≡ image_check
unfolding reproduces_in_its_own_image
check-reproduces_in_its_own_image o = ground arith

verdict_ok-check_replay : (v : Verdict) (u : Unit {0}) → check_replay v ≡ ok u → verdict_ok v ≡ true
unfolding check_replay
verdict_ok-check_replay v u h = ground arith

holds-check_image :
    (v : Verdict) (u : Unit {0}) → check_image v ≡ ok u → outcome_eq v.outcome holds ≡ true
unfolding check_image
holds-check_image v u h = ground arith

is_established-check_execution :
    (v : Verdict) (u : Unit {0})
    → check_execution v ≡ ok u
    → is_established delegation_check v ≡ true
unfolding check_execution
is_established-check_execution v u h = ground arith

verdict_ok_of_holds : (o : Verdict) → outcome_eq o.outcome holds ≡ true → verdict_ok o ≡ true
verdict_ok_of_holds o h = ground arith

is_established_of :
    (name : String) (v : Verdict)
    → v.check ≡ name
    → outcome_eq v.outcome holds ≡ true
    → is_established name v ≡ true
is_established_of name v e h = ground (arith, str_eq_iff v.check name)

pub replay_established :
    (score : ℕ × ℕ) (u : Unit {0})
    → check_replay (package_reproduces_itself score) ≡ ok u
    → is_established replay_check (package_reproduces_itself score) ≡ true
replay_established score u h =
    is_established_of replay_check (package_reproduces_itself score)
      (check-package_reproduces_itself score)
      (holds-package_reproduces_itself score
        (verdict_ok-check_replay (package_reproduces_itself score) u h))

replay-ne-delegation : replay_check ≢ delegation_check
replay-ne-delegation e = ground (arith, str_eq_iff replay_check delegation_check)

pub record Settled (evidence : Bool) (battery : Battery) : Type 0 where
  pub reproduces : established replay_check battery.verdicts ≡ true
  pub isolated : (established delegation_check battery.verdicts || not evidence) ≡ true

-- What recording a verdict does to what is established.
pub established-record :
    (name : String) (b : Battery) (v : Verdict)
    → established name (record_verdict b v).verdicts
      ≡ (established name b.verdicts || is_established name v)
unfolding record_verdict
established-record name b v = established-append name b.verdicts v

module _ {W : Type 0} where
  pub settle_execution-Settled :
      (evidence : Option (String → ℕ × ℕ → Exec W Verdict)) (has : Bool) (before : Battery)
      (path : String) (score : ℕ × ℕ) (battery : Battery)
      → established replay_check battery.verdicts ≡ true
      → Ensures
          (Settled (is_some evidence))
          (settle_execution evidence (deferred_execution has before) path score battery)
  unfolding settle_execution
  settle_execution-Settled none has before path score battery h =
      Ensures-pure battery (record { reproduces = h; isolated = ground arith })
  settle_execution-Settled (some f) has before path score battery h =
      Ensures-bind (f path score) _ (Ensures-any (f path score)) λ execution _.
        Ensures-bind (lift (check_execution execution)) _
          (Ensures-lift (check_execution execution) (is_established-check_execution execution))
          λ _ isolates. Ensures-pure _ (record {
            reproduces = ground (
              arith,
              established-record replay_check (without (deferred_execution has before) battery)
                  execution,
              established-without has before replay_check battery.verdicts replay-ne-delegation,
            );
            isolated = ground (
              arith,
              established-record delegation_check (without (deferred_execution has before) battery)
                  execution,
            );
          })

  pub settle_image-IsVouched :
      (drive : Option (String → Exec W ImageOutcome)) (evidence : Bool) (path : String)
      (battery : Battery)
      → Settled evidence battery
      → battery_ok battery ≡ true
      → Ensures
          (λ b. IsVouched evidence (is_some drive) b.verdicts)
          (settle_image drive path battery)
  unfolding settle_image
  settle_image-IsVouched none evidence path battery s h = Ensures-pure battery (record {
    all_ok = h;
    reproduces = s.reproduces;
    isolated = s.isolated;
    in_image = ground arith;
  })
  settle_image-IsVouched (some drive) evidence path battery s h =
      Ensures-bind (attempt image_failed (drive path)) _
        (Ensures-any (attempt image_failed (drive path)))
        λ o _.
          let v = reproduces_in_its_own_image o in
          Ensures-bind (lift (check_image v)) _ (Ensures-lift (check_image v) (holds-check_image v))
            λ _ good. Ensures-pure _ (record {
              all_ok = battery_ok-record battery v h (verdict_ok_of_holds v good);
              reproduces = ground (arith, established-record replay_check battery v, s.reproduces);
              isolated = ground (arith, established-record delegation_check battery v, s.isolated);
              in_image = ground (
                arith,
                established-record image_check battery v,
                is_established_of image_check v (check-reproduces_in_its_own_image o) good,
              );
            })
