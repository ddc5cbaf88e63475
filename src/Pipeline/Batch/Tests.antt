-- ===== src/Pipeline/Batch/Tests.antt =====
-- The theorems of a batch at a batch of one task and two refusals.
use frontier_refactor_factor.Prelude.{◌+◌, ◌*◌, ◌≤◌, ◌<◌, ◌≡◌, ◌↔◌, String, true, [], ◌∷◌, lit}
use frontier_refactor_factor.Exec.{Fault, material, factory}
use frontier_refactor_factor.Pipeline.Run.{Emitted, Refused}
use frontier_refactor_factor.Pipeline.Batch.{Batch, summary}
use frontier_refactor_factor.Pipeline.Batch.Laws.{summary_adds_up}

abbrev refusal : String → String → Fault → Refused
refusal s r f = record {
  stage = s;
  reason = r;
  fault = f;
  detail = lit "";
  identity = "r#f";
  source_language = "python";
}

abbrev task : Emitted
task = record {
  name = "f";
  path = "out/f";
  scale = "module";
  graded_points = 57;
  probes = 57;
  discarded = 0;
  drawn = 57;
  source_language = "python";
  target_language = "";
  battery = [];
}

abbrev batch : Batch
batch = record {
  emitted = task ∷ [];
  refused =
      refusal "build" "reference-will-not-build" material
      ∷ refusal "emit" "replay-transport-failed" factory
      ∷ [];
}

summary_adds_up_example :
    ((summary batch).emitted + (summary batch).refused_material + (summary batch).refused_factory
      ≡ (summary batch).attempted)
    × (((summary batch).trustworthy ≡ true) ↔ (
        (0 < (summary batch).attempted)
        × (10 * (summary batch).refused_factory ≤ (summary batch).attempted)))
summary_adds_up_example = summary_adds_up batch
