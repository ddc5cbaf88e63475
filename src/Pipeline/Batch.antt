-- ===== src/Pipeline/Batch.antt =====
-- The class `Batch` of frf/core/pipeline.py: what a run of many candidates produced.
pub mod Laws
pub mod Tests
use frontier_refactor_factor.Prelude.{
  ℕ, ◌+◌, ◌-◌, ◌/◌, String, ◌<>◌, Bool, true, false, ◌&&◌, List, [], ◌∷◌, ltb, leb, if◌then◌else◌,
  length, count, str_eq,
}
use frontier_refactor_factor.Exec.{Fault, material, factory}
use frontier_refactor_factor.Pipeline.Run.{Emitted, Refused}

pub record Batch : Type 0 where
  pub emitted : List Emitted
  pub refused : List Refused

unfoldable pub attempted : Batch → ℕ
attempted b = length b.emitted + length b.refused

abbrev pub is_factory : Fault → Bool
is_factory factory = true
is_factory material = false

unfoldable pub our_fault : Batch → ℕ
our_fault b = count (λ r. is_factory r.fault) b.refused

unfoldable pub trustworthy : Batch → Bool
unfolding attempted our_fault
trustworthy b = ltb 0 (attempted b) && leb (our_fault b) (attempted b / 10)

abbrev pub Tally : Type 0
Tally = List (String × ℕ)

-- `by_reason[key] = by_reason.get(key, 0) + 1`
unfoldable pub add_one : String → Tally → Tally
add_one key [] = (key, 1) ∷ []
add_one key ((k, n) ∷ tally) =
    let rest = add_one key tally in if str_eq k key then (k, n + 1) ∷ tally else (k, n) ∷ rest

abbrev pub reason_key : Refused → String
reason_key r = r.stage <> ("/" <> r.reason)

unfoldable pub tally_from : Tally → List Refused → Tally
unfolding add_one
tally_from tally [] = tally
tally_from tally (r ∷ refused) = tally_from (add_one (reason_key r) tally) refused

-- `sorted(items, key=lambda kv: -kv[1])`, which is stable
unfoldable pub insert_tally : String × ℕ → Tally → Tally
insert_tally (k, n) [] = (k, n) ∷ []
insert_tally (k, n) ((j, m) ∷ tally) =
    let rest = insert_tally (k, n) tally in
    if leb m n then (k, n) ∷ (j, m) ∷ tally else (j, m) ∷ rest

unfoldable pub sort_tally : Tally → Tally
unfolding insert_tally
sort_tally [] = []
sort_tally (e ∷ tally) = insert_tally e (sort_tally tally)

-- The yield `emitted / attempted` is derived from the two counts.
pub record Summary : Type 0 where
  pub attempted : ℕ
  pub emitted : ℕ
  pub refused_material : ℕ
  pub refused_factory : ℕ
  pub trustworthy : Bool
  pub by_reason : Tally

unfoldable pub summary : Batch → Summary
unfolding attempted our_fault trustworthy tally_from sort_tally
summary b = record {
  attempted = attempted b;
  emitted = length b.emitted;
  refused_material = length b.refused - our_fault b;
  refused_factory = our_fault b;
  trustworthy = trustworthy b;
  by_reason = sort_tally (tally_from [] b.refused);
}
