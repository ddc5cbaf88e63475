-- ===== src/Call.antt =====
-- frf/observe/call: the seam that observes what a call returned. Here is observation.py. `sha` is
-- `hashlib.sha256` of a text's UTF-8, in hexadecimal; `dumps` is `json.dumps` of the dictionary
-- `{"ok": …, "value": …, "error": …}`, with sorted keys and without spaces.
pub mod Session
pub mod Corpus
pub mod Freeze
pub mod Battery
pub mod Laws
use frontier_refactor_factor.Prelude.{
  ℕ, ◌+◌, ◌*◌, String, ◌<>◌, Bool, true, false, not, ◌&&◌, ◌||◌, Option, none, some, List, [], ◌∷◌,
  map, if◌then◌else◌, ltb, leb, length, is_nil, distinct, eq_string, str_eq, has_text, Message, lit,
  fmt, num, str, clip, cat,
}
use frontier_refactor_factor.Compare.{Value, Policy, Units, compare}

pub record Observation : Type 0 where
  pub ok : Bool
  pub value : Value
  pub error : String

-- What the reference reproducibly does for one probe.
pub record Expectation : Type 0 where
  pub probe_id : String
  pub digest : String
  pub runs : ℕ
  pub dropped : Bool
  pub drop_reason : Message

abbrev pub graded : Expectation → Bool
graded e = not e.dropped

abbrev pub empty_max : String
empty_max = "ValueError: max() arg is an empty sequence"

-- The error as the digest reads it.
unfoldable pub known_error : String → String
known_error error =
    let e =
      (if str_eq error "ValueError: max() iterable argument is empty" || str_eq error empty_max
        then empty_max
        else error) in
    if has_text e "Cannot find module"
      || (has_text e "module resolution failed" || has_text e "ERR_MODULE_NOT_FOUND")
    then "Error: module resolution failed"
    else e

-- What the freeze of a whole corpus produced, and what it lost.
pub record FreezeReport : Type 0 where
  pub expectations : List Expectation
  pub discarded : List Expectation

abbrev pub attempted : FreezeReport → ℕ
attempted r = length r.expectations + length r.discarded

-- `discard_rate <= MAX_DISCARD_FRACTION`, which is a quarter, of the quotient itself
unfoldable pub report_usable : FreezeReport → Bool
report_usable r = not (is_nil r.expectations) && leb (4 * length r.discarded) (attempted r)

abbrev pub pop_text : List String → String
pop_text [] = ""
pop_text (s ∷ ss) = s

module _ (sha : String → String) (dumps : Bool → Value → String → String) where
  unfoldable pub digest : Observation → String
  unfolding known_error
  digest o = "sha256:" <> sha (dumps o.ok o.value (known_error o.error))

  unfoldable pub freeze_probe : String → List Observation → Expectation
  unfolding digest
  freeze_probe probe_id [] = record {
    probe_id = probe_id;
    digest = "";
    runs = 0;
    dropped = true;
    drop_reason = lit "the reference never ran";
  }
  freeze_probe probe_id (r ∷ rs) =
      let runs = length (r ∷ rs) in
      let digests = distinct (map digest (r ∷ rs)) in
      if ltb 1 (length digests)
      then record {
        probe_id = probe_id;
        digest = "";
        runs = runs;
        dropped = true;
        drop_reason =
            fmt "the reference gave %d different answers across %d runs"
              (num (length digests) ∷ num runs ∷ []);
      }
      else record {
        probe_id = probe_id;
        digest = pop_text digests;
        runs = runs;
        dropped = false;
        drop_reason = lit "";
      }

  abbrev pub add_expectation : Expectation → FreezeReport → FreezeReport
  add_expectation e r =
      if graded e
      then record r { expectations = e ∷ r.expectations }
      else record r { discarded = e ∷ r.discarded }

  unfoldable pub freeze_corpus : List (String × List Observation) → FreezeReport
  unfolding freeze_probe
  freeze_corpus [] = record { expectations = []; discarded = [] }
  freeze_corpus ((pid, runs) ∷ observed) =
      add_expectation (freeze_probe pid runs) (freeze_corpus observed)

  -- `actual.error[:200] or "(no message)"`
  abbrev pub refusal_text : Observation → Message
  refusal_text actual =
      if actual.ok
      then lit "expected the frozen outcome, got a value"
      else cat (lit "the call was refused: ")
          (if str_eq actual.error "" then lit "(no message)" else clip 200 (lit actual.error))

  abbrev pub same_digest : Expectation → Observation → Bool
  same_digest e actual = str_eq (digest actual) e.digest

  -- By the digest.
  unfoldable pub grade_exact : Expectation → Observation → ℕ × ℕ × Message
  unfolding digest
  grade_exact e actual =
      if same_digest e actual then (1, 1, lit "") else (0, 1, refusal_text actual)

  -- Under a policy, of floats in those units; the reason that `compare_numeric`
  -- gives is left out.
  unfoldable pub grade_numeric :
      Policy → Units → Option Observation → Expectation → Observation → ℕ × ℕ × Message
  unfolding grade_exact compare
  grade_numeric policy units none e actual =
      (0, 1, lit "numerical baseline is unavailable or changed")
  grade_numeric policy units (some reference) e actual =
      if not (same_digest e reference)
      then (0, 1, lit "numerical baseline is unavailable or changed")
      else if reference.ok && actual.ok
      then ((if compare policy units reference.value actual.value then 1 else 0), 1, lit "")
      else grade_exact e actual

  -- `grade`; the policy is a valid one, with the units of floats.
  unfoldable pub grade :
      Option (Policy × Units) → Option Observation → Expectation → Observation → ℕ × ℕ × Message
  unfolding grade_numeric
  grade none reference e actual = if not (graded e) then (0, 0, lit "") else grade_exact e actual
  grade (some (policy, units)) reference e actual =
      if not (graded e) then (0, 0, lit "") else grade_numeric policy units reference e actual
