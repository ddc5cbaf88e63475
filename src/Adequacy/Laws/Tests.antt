-- ===== src/Adequacy/Laws/Tests.antt =====
-- The theorems on adequacy at concrete seams, whose world counts what a model was asked.
use frontier_refactor_factor.Prelude.{
  ℕ, if◌then◌else◌, ◌+◌, ◌*◌, ◌≤◌, ◌≡◌, refl, subst, String, true, Option, none, some, List, [],
  ◌∷◌, arith, length, str_eq, Message, lit,
}
use frontier_refactor_factor.Exec.{Exec, Result, ok, err}
use frontier_refactor_factor.Exec.Ensures.{Ensures}
use frontier_refactor_factor.Adequacy.{assess, assessment_ok, measure_floor}
use frontier_refactor_factor.Adequacy.Repair.{
  Corpus, Seam, repair, audit, filter_contractual_dark, propose_probes_for_dark, merge_and_refreeze,
}
use frontier_refactor_factor.Adequacy.Laws.Settled.{Settled, repair-Settled, repair-AddsNothing}
use frontier_refactor_factor.Adequacy.Laws.Asks.{Spends, repair-Spends}
use frontier_refactor_factor.Adequacy.Laws.Audit.{Audited, audit-Audited}

abbrev names : List String
names = "returns-null" ∷ "returns-zero" ∷ []

abbrev score : String → Exec ℕ (ℕ × ℕ)
score n w = if str_eq n "returns-zero" then (ok (1, 4), w) else (ok (0, 4), w)

abbrev asking : {A : Type 0} → A → Exec ℕ A
asking a w = (ok a, w + 1)

-- One probe reaches a tenth of the subject, and the proposal for a dark region is one probe more.
abbrev freeze : Corpus String → Message → String → ℕ → (Result (Unit {0}) × Corpus String) × ℕ
freeze c i p w = (
  (
    ok tt,
    record c {
      inputs = (elim c.inputs [ none ↦ none | some ps ↦ some (p ∷ ps) ]);
      probes = c.probes + 1;
    },
  ),
  w,
)

abbrev seam : Seam ℕ String
seam = record {
  scale = "module";
  has_schema = true;
  measure = λ ps w. (
    ok (record { reached = 10 * length ps; total = 100; dark = "f" ∷ []; backend = "python" }),
    w,
  );
  score_trivial = λ c n. score n;
  ask_contractual = λ regions. asking (some ("f" ∷ []));
  ask_call = λ regions ps. asking ("0" ∷ []);
  ask_package = λ regions ps. asking [];
  ask_repo = λ regions ps. asking [];
  refreeze = some freeze;
}

abbrev corpus : Corpus String
corpus = record {
  inputs = some ("7" ∷ []);
  scenarios = none;
  probes = 1;
  usable = true;
  adequacy_note = lit "";
  adequacy = none;
}

-- A corpus of the process seam.
abbrev scenarios_only : Corpus String
scenarios_only = record corpus { inputs = none; scenarios = some ("--help" ∷ []) }

-- Two repairs, of two calls each, make the corpus reach enough.
repaired : (repair seam names 3 corpus 0).1 ≡ 4
unfolding repair measure_floor assessment_ok assess filter_contractual_dark propose_probes_for_dark
    merge_and_refreeze
repaired = refl

repair-Settled_example : Ensures (Settled seam names) (repair seam names 3 corpus)
repair-Settled_example = repair-Settled seam names 3 corpus

repair-AddsNothing_example :
    Ensures
      (λ d. (d.probes ≡ scenarios_only.probes) × (d.scenarios ≡ scenarios_only.scenarios))
      (repair seam names 3 scenarios_only)
repair-AddsNothing_example = repair-AddsNothing seam names 3 scenarios_only refl

abbrev IsFree :
    Option (Corpus String → Message → String → ℕ → (Result (Unit {0}) × Corpus String) × ℕ) → Type 0
IsFree none = Unit
IsFree (some f) = (c : Corpus String) (i : Message) (p : String) (w : ℕ) → (f c i p w).1 ≤ w

freeze-IsFree : IsFree (some freeze)
freeze-IsFree c i p w = omega arith

repair-Spends_example : Spends (λ w. w) 6 (repair seam names 3 corpus)
repair-Spends_example =
    repair-Spends seam names (λ w. w) (λ ps. record { at = λ w. omega arith })
      (λ c n. record { at = λ w. ground arith })
      (λ f c i p w h. subst IsFree h freeze-IsFree c i p w)
      (λ regions. record { at = λ w. omega arith }) (λ regions ps. record { at = λ w. omega arith })
      (λ regions ps. record { at = λ w. omega arith })
      (λ regions ps. record { at = λ w. omega arith }) 3 corpus

abbrev got : Result (Corpus String) → Corpus String
got (ok c) = c
got (err x) = corpus

abbrev audited : Corpus String
audited = got (audit seam names corpus 0).0

audit-Audited_example : Audited seam names "returns-null" corpus 0 audited
unfolding audit measure_floor assessment_ok assess
audit-Audited_example = audit-Audited seam names "returns-null" corpus 0 audited refl
