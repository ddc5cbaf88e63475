-- ===== src/Call/Session.antt =====
-- `RemoteSubject.call_many` of frf/observe/call/runner.py: calls sent in chunks of sixteen, each
-- answered by the identity of its request. `ask` sends the requests of one chunk and answers the
-- replies that came back, by identity; `late` reads the clock against the deadline of the whole call.
use frontier_refactor_factor.Prelude.{
  ℕ, zero, suc, ◌+◌, String, Bool, true, false, Option, none, some, ◌<>◌, str_nat, List, [], ◌∷◌,
  ◌++◌, map, take, drop, length, if◌then◌else◌, ◌==◌,
}
use frontier_refactor_factor.Exec.{
  Exec, Result, ok, err, refusal, error, subject_failed, subject_unreachable, ErrorClass, pure,
  ◌>>=◌,
}
use frontier_refactor_factor.Compare.{Value, null}
use frontier_refactor_factor.Call.{Observation}

pub record Reply : Type 0 where
  pub ok : Bool
  pub value : Value
  pub error : String

-- `text[:n]`
abbrev pub clip_text : ℕ → String → String
clip_text zero s = String.[]
clip_text (suc n) String.[] = String.[]
clip_text (suc n) (String.◌∷◌ c s) = String.◌∷◌ c (clip_text n s)

abbrev pub late_text : String
late_text = "the batched call exceeded its overall deadline before this chunk was sent"

-- `isinstance(e, SubjectFailed)`
abbrev pub is_subject_failed : ErrorClass → Bool
is_subject_failed subject_failed = true
is_subject_failed subject_unreachable = true
is_subject_failed _ = false

abbrev pub refused : String → Observation
refused text = record { ok = false; value = null; error = text }

-- `replies.get(rid)`
abbrev pub reply_of : List (ℕ × Reply) → ℕ → Option Reply
reply_of [] i = none
reply_of ((j, r) ∷ rs) i = let rest = reply_of rs i in if j == i then some r else rest

-- `reply` of the request `i`
abbrev pub observe_reply : ℕ → Option Reply → Observation
observe_reply i none = refused ("no reply for request " <> str_nat i)
observe_reply i (some r) =
    if r.ok then record { ok = true; value = r.value; error = "" } else refused r.error

module _ {Args : Type 0} where
  -- The requests of a chunk, numbered from the next identity on.
  unfoldable pub number_from : ℕ → List Args → List (ℕ × Args)
  number_from i [] = []
  number_from i (a ∷ args) = (suc i, a) ∷ number_from (suc i) args

  abbrev pub answers_of : List (ℕ × Reply) → List (ℕ × Args) → List (ℕ × Observation)
  answers_of replies = map (λ (i, a). (i, observe_reply i (reply_of replies i)))

  abbrev pub all_refused : String → List (ℕ × Args) → List (ℕ × Observation)
  all_refused text = map (λ (i, a). (i, refused text))

  module _ {W : Type 0} (late : Exec W Bool)
      (ask : List (ℕ × Args) → Exec W (List (ℕ × Reply))) where
    -- `except SubjectFailed`
    abbrev pub settle :
        List (ℕ × Args) → Result (List (ℕ × Reply)) → Result (List (ℕ × Observation))
    settle requests (ok replies) = ok (answers_of replies requests)
    settle requests (err (refusal s)) = err (refusal s)
    settle requests (err (error e)) =
        if is_subject_failed e.class
        then ok (all_refused (clip_text 600 e.text) requests)
        else err (error e)

    abbrev pub ask_chunk : List (ℕ × Args) → Exec W (List (ℕ × Observation))
    ask_chunk requests w = let (r, w') = ask requests w in (settle requests r, w')

    -- `results`, in the order in which the identities were given; the fuel is the number of items.
    unfoldable pub chunks : ℕ → ℕ → List Args → Exec W (List (ℕ × Observation))
    unfolding number_from
    chunks fuel i [] = pure []
    chunks zero i (a ∷ args) = pure []
    chunks (suc fuel) i (a ∷ args) = do
      let requests = number_from i (take 16 (a ∷ args))
      stop ← late
      here ← (if stop then pure (all_refused late_text requests) else ask_chunk requests)
      rest ← chunks fuel (i + length requests) (drop 16 (a ∷ args))
      pure (here ++ rest)

    -- `call_many`, where `i` is the last identity that was given
    unfoldable pub call_many : ℕ → List Args → Exec W (List (ℕ × Observation))
    unfolding chunks
    call_many i args = chunks (length args) i args
