-- ===== src/Sourcing/Laws/Waits.antt =====
-- How long one page can take.
use frontier_refactor_factor.Prelude.{
  ℕ, zero, suc, ◌+◌, ◌*◌, ◌≤◌, ◌≡◌, Option, none, some, List, arith,
}
use frontier_refactor_factor.Pipeline.Spec.{Candidate}
use frontier_refactor_factor.Sourcing.Fetch.{
  Index, Clock, Page, rows, raises, rate_limited, transport_error, source_error, unexpected,
  rate_limit_delay, after_answer, try_fetch, fetch_page_with_retry,
}

rate_limit_delay-le : (after : Option ℕ) → rate_limit_delay after ≤ 180
unfolding rate_limit_delay
rate_limit_delay-le none = omega arith
rate_limit_delay-le (some zero) = omega arith
rate_limit_delay-le (some (suc n)) = ground arith

-- The backoffs of the attempts that are left.
abbrev AreShort : ℕ → ℕ → Type 0
AreShort zero backoff = Unit
AreShort (suc left) backoff = (backoff ≤ 180) × AreShort left (2 * backoff)

module _ {S : Type 0} (index : Index S) (clock : Clock S) (page size slow : ℕ)
    (sleeps : (n : ℕ) (s : S) → clock.now (clock.sleep n s) ≡ clock.now s + n)
    (answers : (s : S) → clock.now (index.page page size s).1 ≤ clock.now s + slow) where
  after_answer-waits :
      (again : S → Option (List Candidate) × S) (more backoff : ℕ) (answer : Page) (t : S)
      → backoff ≤ 180
      → ((s : S) → clock.now (again s).1 ≤ clock.now s + more)
      → clock.now (after_answer clock again backoff answer t).1 ≤ clock.now t + (180 + more)
  unfolding after_answer
  after_answer-waits again more backoff (rows batch) t b h = omega arith
  after_answer-waits again more backoff (raises (rate_limited after)) t b h = omega (
    arith,
    h (clock.sleep (rate_limit_delay after) t),
    sleeps (rate_limit_delay after) t,
    rate_limit_delay-le after,
  )
  after_answer-waits again more backoff (raises transport_error) t b h =
      omega (arith, h (clock.sleep backoff t), sleeps backoff t)
  after_answer-waits again more backoff (raises source_error) t b h = omega arith
  after_answer-waits again more backoff (raises unexpected) t b h = omega arith

  try_fetch-waits :
      (left backoff : ℕ) (s : S)
      → AreShort left backoff
      → clock.now (try_fetch index clock page size left backoff s).1
        ≤ clock.now s + left * (slow + 180)
  unfolding try_fetch
  try_fetch-waits zero backoff s h = omega arith
  try_fetch-waits (suc left) backoff s h = omega (
    arith,
    answers s,
    after_answer-waits (try_fetch index clock page size left (2 * backoff)) (left * (slow + 180))
        backoff (index.page page size s).0 (index.page page size s).1 h.0
        (λ t. try_fetch-waits left (2 * backoff) t h.1),
  )

  -- A page is asked for three times at most, with a wait of at most 180 seconds after each: where a
  -- call of the index takes at most `slow` seconds and a sleep as long as it says, the fetch takes
  -- at most three times `slow + 180`.
  pub fetch_waits :
      (s : S)
      → clock.now (fetch_page_with_retry index clock page size s).1 ≤ clock.now s + 3 * (slow + 180)
  unfolding fetch_page_with_retry
  fetch_waits s = try_fetch-waits 3 1 s (omega arith)
