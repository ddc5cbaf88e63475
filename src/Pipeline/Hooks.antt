-- ===== src/Pipeline/Hooks.antt =====
-- What frf/core/pipeline.py is handed: the scale, the hooks of the seam, and the parts of `core`
-- that read or write the emitted tree. `W` is the world that all of them act on; sources of probes
-- and observers are passed on and never looked into.
use frontier_refactor_factor.Prelude.{ℕ, String, Option, List}
use frontier_refactor_factor.Evidence.{Verdict, Battery}
use frontier_refactor_factor.Evidence.Checks.{ImageOutcome}
use frontier_refactor_factor.Exec.{Exec}
use frontier_refactor_factor.Pipeline.Spec.{Spec, Specifier}
use frontier_refactor_factor.Pipeline.Corpus.{Report}

pub record Scale (W Source Observer : Type 0) : Type 0 where
  pub specifier : Specifier W
  pub probes : Spec → Exec W Source
  -- the attribute `_spec`, which drawing probes may have set
  pub refined_spec : W → Option Spec
  pub observe : Exec W Observer
  -- the name of the backend, or the empty text
  pub backend : String

-- A replay answers the score that it measured. `emit` may add verdicts to the battery.
pub record Hooks (W Source Observer : Type 0) : Type 0 where
  pub build : Spec → Exec W (Unit {0})
  pub freeze : Spec → Observer → Source → ℕ → Exec W Report
  pub adequacy : Spec → Observer → Report → Exec W Report
  pub battery : Spec → Observer → Report → Exec W Battery
  pub emit : Spec → Report → Battery → Exec W (String × Battery)
  pub replay : String → Exec W (ℕ × ℕ)
  pub replay_in_image : Option (String → Exec W ImageOutcome)
  pub execution_evidence : Option (String → ℕ × ℕ → Exec W Verdict)

-- `harbor.deterministic_quality`, `_purge_task_bytecode`, and the writing of the attestation.
pub record Delivery (W : Type 0) : Type 0 where
  pub deterministic_quality : String → Exec W (List String)
  pub purge_task_bytecode : String → Exec W (Unit {0})
  pub build_attestation : Spec → Report → Battery → ℕ × ℕ → Exec W String
  pub write_attestation : String → String → Exec W (Unit {0})
