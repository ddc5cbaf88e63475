-- ===== src/Pipeline/Laws/Established.antt =====
-- Verdicts that a battery holds, across what the pipeline adds to it and takes from it.
use frontier_refactor_factor.Prelude.{
  ◌≡◌, ◌≢◌, refl, String, Bool, true, ◌&&◌, ◌||◌, List, [], ◌∷◌, ◌++◌, arith, any, all-append,
  is_nil-append, str_eq, str_eq_iff,
}
use frontier_refactor_factor.Evidence.{
  holds, Verdict, outcome_eq, verdict_ok, Battery, record_verdict, battery_ok,
}
use frontier_refactor_factor.Pipeline.Gates.{deferred_execution, delegation_check, is_among}
use frontier_refactor_factor.Pipeline.Run.{without}

abbrev pub is_established : String → Verdict → Bool
is_established name v = str_eq v.check name && outcome_eq v.outcome holds

-- The verdict of that check is there, and holds.
abbrev pub established : String → List Verdict → Bool
established name vs = any (is_established name) vs

pub established-append :
    (name : String) (vs : List Verdict) (v : Verdict)
    → established name (vs ++ v ∷ []) ≡ (established name vs || is_established name v)
established-append name [] v = ground arith
established-append name (u ∷ vs) v = ground (arith, established-append name vs v)

is_among-deferred :
    (has : Bool) (vs : List Verdict) (v : Verdict)
    → is_among (deferred_execution has (record { verdicts = vs })) v ≡ true
    → v.check ≡ delegation_check
unfolding deferred_execution
is_among-deferred has [] v h = cc
is_among-deferred has (u ∷ vs) v h = ground (
  arith,
  is_among-deferred has vs v,
  str_eq_iff u.check v.check,
  str_eq_iff u.check delegation_check,
)

-- What is deferred is a verdict of the delegation check: the others stay.
pub established-without :
    (has : Bool) (battery : Battery) (name : String) (vs : List Verdict)
    → name ≢ delegation_check
    → established name
        (without (deferred_execution has battery) (record { verdicts = vs })).verdicts
      ≡ established name vs
established-without has battery name [] h = refl
established-without has battery name (v ∷ vs) h = ground (
  arith,
  established-without has battery name vs h,
  is_among-deferred has battery.verdicts v,
  str_eq_iff v.check name,
)

-- A battery stays ok when a verdict that is ok is recorded.
pub battery_ok-record :
    (battery : Battery) (v : Verdict)
    → battery_ok battery ≡ true
    → verdict_ok v ≡ true
    → battery_ok (record_verdict battery v) ≡ true
unfolding battery_ok record_verdict
battery_ok-record battery v h k =
    ground
      (arith, all-append verdict_ok battery.verdicts (v ∷ []), is_nil-append battery.verdicts v)
