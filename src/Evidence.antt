-- ===== src/Evidence.antt =====
-- frf/core/evidence.py: what a check concludes, and the record of how a task did.
pub mod Checks
pub mod Laws
use frontier_refactor_factor.Prelude.{
  String, Bool, true, false, not, ◌&&◌, List, [], ◌∷◌, ◌++◌, is_nil, all, select, Message,
  message_eq, str_eq,
}

pub data Outcome : Type 0 where
  holds fails inconclusive not_applicable : Outcome

pub record Verdict : Type 0 where
  pub check : String
  pub outcome : Outcome
  pub detail : Message

-- `self.outcome in (HOLDS, NOT_APPLICABLE)`
abbrev pub outcome_ok : Outcome → Bool
outcome_ok holds = true
outcome_ok fails = false
outcome_ok inconclusive = false
outcome_ok not_applicable = true

abbrev pub verdict_ok : Verdict → Bool
verdict_ok v = outcome_ok v.outcome

abbrev pub outcome_eq : Outcome → Outcome → Bool
outcome_eq holds holds = true
outcome_eq fails fails = true
outcome_eq inconclusive inconclusive = true
outcome_eq not_applicable not_applicable = true
outcome_eq _ _ = false

-- The equality of the frozen dataclass, with two messages equal when they are built alike.
abbrev pub verdict_eq : Verdict → Verdict → Bool
verdict_eq u v =
    str_eq u.check v.check && (outcome_eq u.outcome v.outcome && message_eq u.detail v.detail)

pub record Battery : Type 0 where
  pub verdicts : List Verdict

unfoldable pub record_verdict : Battery → Verdict → Battery
record_verdict b v = record b { verdicts = b.verdicts ++ v ∷ [] }

unfoldable pub battery_ok : Battery → Bool
battery_ok b = not (is_nil b.verdicts) && all verdict_ok b.verdicts

unfoldable pub failures : Battery → List Verdict
failures b = select (λ v. not (verdict_ok v)) b.verdicts
