-- ===== src/Sourcing/Fetch.antt =====
-- `_fetch_page_with_retry` and `_is_valid_candidate` of frf/core/sourcing.py. An index is outside
-- code: what it answers may depend on the state `S` of the world, which also holds the clock.
use frontier_refactor_factor.Prelude.{
  ℕ, zero, suc, ◌*◌, String, Bool, not, ◌||◌, Option, none, some, List, leb, if◌then◌else◌, str_eq,
}
use frontier_refactor_factor.Pipeline.Spec.{Candidate}

-- What `index.page` may raise. The first carries the seconds of `retry_after`, if any.
pub data Trouble : Type 0 where
  rate_limited : Option ℕ → Trouble
  transport_error source_error unexpected : Trouble

pub data Page : Type 0 where
  rows : List Candidate → Page
  raises : Trouble → Page

pub record Index (S : Type 0) : Type 0 where
  pub name : String
  -- the empty text where the attribute is absent
  pub cursor_key : String
  pub resumable_pages : Bool
  pub page : ℕ → ℕ → S → Page × S
  pub total : Option ℕ
  pub resume_page : S → ℕ
  pub set_resume_page : ℕ → S → S
  pub cursor : S → ℕ
  pub set_cursor : ℕ → S → S

-- The clock, in seconds.
pub record Clock (S : Type 0) : Type 0 where
  pub now : S → ℕ
  pub sleep : ℕ → S → S

abbrev pub rate_limit_wait : ℕ
rate_limit_wait = 180

abbrev at_most : ℕ → ℕ → ℕ
at_most bound n = if leb n bound then n else bound

-- `min(float(retry_after or 60.0), RATE_LIMIT_WAIT)`
unfoldable pub rate_limit_delay : Option ℕ → ℕ
rate_limit_delay none = 60
rate_limit_delay (some zero) = 60
rate_limit_delay (some (suc n)) = at_most rate_limit_wait (suc n)

-- What one answer leads to; `again` is the next attempt, and `backoff` the delay of an exponential
-- backoff at this one.
unfoldable pub after_answer :
    {S : Type 0}
    → Clock S
    → (S → Option (List Candidate) × S)
    → ℕ
    → Page
    → S
    → Option (List Candidate) × S
unfolding rate_limit_delay
after_answer clock again backoff (rows batch) t = (some batch, t)
after_answer clock again backoff (raises (rate_limited after)) t =
    again (clock.sleep (rate_limit_delay after) t)
after_answer clock again backoff (raises transport_error) t = again (clock.sleep backoff t)
after_answer clock again backoff (raises source_error) t = (none, t)
after_answer clock again backoff (raises unexpected) t = (none, t)

-- The loop, on the attempts that are left.
unfoldable pub try_fetch :
    {S : Type 0} → Index S → Clock S → ℕ → ℕ → ℕ → ℕ → S → Option (List Candidate) × S
try_fetch index clock page size zero backoff s = (none, s)
try_fetch index clock page size (suc left) backoff s =
    let (answer, t) = index.page page size s in
    after_answer clock (try_fetch index clock page size left (2 * backoff)) backoff answer t

unfoldable pub fetch_page_with_retry :
    {S : Type 0} → Index S → Clock S → ℕ → ℕ → S → Option (List Candidate) × S
unfolding try_fetch
fetch_page_with_retry index clock page size s = try_fetch index clock page size 3 1 s

unfoldable pub is_valid_candidate : Candidate → Bool
is_valid_candidate c = not (str_eq c.identity "" || (str_eq c.scale "" || str_eq c.source ""))
