-- ===== src/Sourcing/Laws/Ends.antt =====
-- A walk ends.
use frontier_refactor_factor.Prelude.{
  ℕ, zero, suc, ◌+◌, ◌*◌, ◌≤◌, ◌<◌, ◌≡◌, ◌≢◌, refl, String, Bool, true, false, not, Option, none,
  some, List, [], ◌∷◌, arith, leb, ltb, if◌then◌else◌, Bool-cases, inl, inr,
}
use frontier_refactor_factor.Pipeline.Spec.{Candidate}
use frontier_refactor_factor.Sourcing.Memory.{Memory}
use frontier_refactor_factor.Sourcing.Fetch.{
  Index, Clock, Page, rows, raises, rate_limited, transport_error, source_error, unexpected,
  after_answer, try_fetch, fetch_page_with_retry,
}
use frontier_refactor_factor.Sourcing.Walk.{
  Request, Walking, Walked, Ending, out_of_fuel, budget_met, deadline_reached, is_late, ended,
  deadline_of, advance, take_page, take_rows, loop, start, walk, cursor_name,
}

-- A page without rows: it is empty, or cannot be had.
abbrev pub is_dry : Page → Bool
is_dry (rows []) = true
is_dry (rows (c ∷ cs)) = false
is_dry (raises e) = true

abbrev is_dry_batch : Option (List Candidate) → Bool
is_dry_batch none = true
is_dry_batch (some []) = true
is_dry_batch (some (c ∷ cs)) = false

abbrev pub is_over : Ending → Bool
is_over out_of_fuel = false
is_over _ = true

is_over-ne : {e : Ending} → is_over e ≡ true → e ≢ out_of_fuel
is_over-ne h k = cc

module _ {S : Type 0} (clock : Clock S) (again : S → Option (List Candidate) × S)
    (again_dry : (s : S) → is_dry_batch (again s).0 ≡ true) (backoff : ℕ) where
  after_answer-dry :
      (answer : Page) (t : S)
      → is_dry answer ≡ true
      → is_dry_batch (after_answer clock again backoff answer t).0 ≡ true
  unfolding after_answer
  after_answer-dry (rows []) t h = refl
  after_answer-dry (rows (c ∷ cs)) t h = cc
  after_answer-dry (raises (rate_limited after)) t h = again_dry _
  after_answer-dry (raises transport_error) t h = again_dry _
  after_answer-dry (raises source_error) t h = refl
  after_answer-dry (raises unexpected) t h = refl

module _ {S : Type 0} (index : Index S) (clock : Clock S) (page size : ℕ)
    (dry : (s : S) → is_dry (index.page page size s).0 ≡ true) where
  try_fetch-dry :
      (left backoff : ℕ) (s : S)
      → is_dry_batch (try_fetch index clock page size left backoff s).0 ≡ true
  unfolding try_fetch
  try_fetch-dry zero backoff s = refl
  try_fetch-dry (suc left) backoff s =
      after_answer-dry clock (try_fetch index clock page size left (2 * backoff))
        (try_fetch-dry left (2 * backoff)) backoff (index.page page size s).0
        (index.page page size s).1 (dry s)

  fetch_page_with_retry-dry :
      (s : S) → is_dry_batch (fetch_page_with_retry index clock page size s).0 ≡ true
  unfolding fetch_page_with_retry
  fetch_page_with_retry-dry s = try_fetch-dry 3 1 s

module _ {S : Type 0} (index : Index S) (clock : Clock S) (q : Request) (deadline : Option ℕ)
    (key : String) where
  abbrev Over : Walked S → Type 0
  Over r = is_over r.ending ≡ true

  -- Past the last page each round fails or ends, and the third failure ends the walk.
  take_page-dry :
      (again : Walking S → Walked S) (w : Walking S) (fetched : Option (List Candidate)) (t : S)
      → is_dry_batch fetched ≡ true
      → (w.errors + 1 < 3
          → Over (again (record w { page = w.page + 1; errors = w.errors + 1; outside = t })))
      → Over (take_page index clock q deadline key again w fetched t)
  unfolding take_page
  take_page-dry again w none t h k = ground arith
  take_page-dry again w (some []) t h k = refl
  take_page-dry again w (some (c ∷ cs)) t h k = cc

  page-advance :
      (w : Walking S) (t : S) → (advance index clock q deadline key w t).page ≡ w.page + 1
  unfolding advance
  page-advance w t = ground arith

  if-Over : (b : Bool) (x y : Walked S) → Over x → Over y → Over (if b then x else y)
  if-Over true x y h k = h
  if-Over false x y h k = k

  loop-step :
      (fuel : ℕ) (w : Walking S)
      → let (fetched, t) = fetch_page_with_retry index clock w.page q.page_size w.outside in
        Over
          (take_page index clock q deadline key (loop index clock q deadline key fuel) w fetched t)
        → Over (loop index clock q deadline key (suc fuel) w)
  unfolding loop
  loop-step fuel w h =
      let (fetched, t) = fetch_page_with_retry index clock w.page q.page_size w.outside in
      let rest =
        take_page index clock q deadline key (loop index clock q deadline key fuel) w fetched t in
      let late = ended index clock q deadline key deadline_reached w in
      if-Over (not (ltb w.progress.produced q.budget))
        (ended index clock q deadline key budget_met w)
        (if is_late index clock q deadline key w.outside then late else rest) refl
        (if-Over (is_late index clock q deadline key w.outside) late rest refl h)

  take_page-Over :
      (again : Walking S → Walked S) (w : Walking S) (fetched : Option (List Candidate)) (t : S)
      → ((v : Walking S) → v.page ≡ w.page + 1 → Over (again v))
      → Over (take_page index clock q deadline key again w fetched t)
  unfolding take_page
  take_page-Over again w none t k =
      ground (arith, k (record w { page = w.page + 1; errors = w.errors + 1; outside = t }))
  take_page-Over again w (some []) t k = refl
  take_page-Over again w (some (c ∷ cs)) t k =
      let next = advance index clock q deadline key w t in
      k (record next { progress = (take_rows q next.progress (c ∷ cs)).1 }) (page-advance w t)

  module _ (last : ℕ)
      (dry : (page : ℕ) (s : S)
        → last ≤ page
        → is_dry (index.page page q.page_size s).0 ≡ true) where
    loop-dry :
        (fuel : ℕ) (w : Walking S)
        → last ≤ w.page
        → 0 < fuel
        → 3 ≤ fuel + w.errors
        → Over (loop index clock q deadline key fuel w)
    loop-dry zero w h f k = absurd (omega arith)
    loop-dry (suc fuel) w h f k =
        let (fetched, t) = fetch_page_with_retry index clock w.page q.page_size w.outside in
        loop-step fuel w (
          take_page-dry (loop index clock q deadline key fuel) w fetched t
            (fetch_page_with_retry-dry index clock w.page q.page_size (λ s. dry w.page s h)
              w.outside)
            λ room.
              loop-dry fuel (record w { page = w.page + 1; errors = w.errors + 1; outside = t })
                (omega arith) (omega arith) (omega arith))

    loop-Over :
        (fuel : ℕ) (w : Walking S)
        → last + 3 ≤ fuel + w.page
        → 3 ≤ fuel
        → Over (loop index clock q deadline key fuel w)
    loop-Over zero w h k = absurd (omega arith)
    loop-Over (suc fuel) w h k = elim (Bool-cases (leb last w.page)) [
      | inl past ↦ loop-dry (suc fuel) w (ground arith) (omega arith) (omega arith)
      | inr before ↦
          let (fetched, t) = fetch_page_with_retry index clock w.page q.page_size w.outside in
          loop-step fuel w (
            take_page-Over (loop index clock q deadline key fuel) w fetched t
              λ v e. loop-Over fuel v (ground arith) (ground arith))
    ]

-- Over an index that has no rows from page `last` on, a walk ends: with fuel for three pages more it
-- stops by itself, its budget met, its deadline reached, its index exhausted, or after three
-- failures in a row.
pub walk_ends :
    {S : Type 0} (index : Index S) (clock : Clock S) (q : Request) (last fuel : ℕ) (memory : Memory)
    (s : S)
    → ((page : ℕ) (t : S) → last ≤ page → is_dry (index.page page q.page_size t).0 ≡ true)
    → last + 3 ≤ fuel
    → (walk index clock q fuel memory s).ending ≢ out_of_fuel
unfolding walk
walk_ends index clock q last fuel memory s dry enough = is_over-ne (
    loop-Over index clock q (deadline_of index clock q s) (cursor_name index clock q) last dry fuel
      (start index clock q memory s) (omega arith) (omega arith))
