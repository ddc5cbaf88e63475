-- ===== src/Sourcing/Walk.antt =====
-- `walk` of frf/core/sourcing.py, read to its end: what the generator yields in all, to a caller
-- that does nothing else to the index or to the memory. Log lines, and the attributes that
-- `walk` leaves on the index for others to read, are left out.
use frontier_refactor_factor.Prelude.{
  ℕ, zero, suc, ◌+◌, ◌-◌, String, Bool, true, false, not, ◌&&◌, ◌||◌, Option, none, some, List, [],
  ◌∷◌, ◌++◌, ltb, leb, if◌then◌else◌, str_eq,
}
use frontier_refactor_factor.Pipeline.Spec.{Candidate, normal, lowered, same_codes}
use frontier_refactor_factor.Sourcing.Memory.{
  Memory, Stored, contains, remember, resume_at, reached, save, max,
}
use frontier_refactor_factor.Sourcing.Fetch.{
  Index, Clock, fetch_page_with_retry, is_valid_candidate,
}

pub record Coverage : Type 0 where
  pub index : String
  pub walked : ℕ
  pub fresh : ℕ
  pub repeats : ℕ
  pub total : Option ℕ

-- `max(0, total - walked)`
unfoldable pub remaining : Coverage → Option ℕ
remaining c = elim c.total [ none ↦ none | some total ↦ some (total - c.walked) ]

-- What the caller asks for; `max_seconds` is settled, from the argument or from the environment.
pub record Request : Type 0 where
  pub budget : ℕ
  pub page_size : ℕ
  pub keep : Option (Candidate → Bool)
  pub language_filter : Option String
  pub max_seconds : Option ℕ

-- `if language_filter: ...`; an empty filter is none.
abbrev pub speaks : Option String → Candidate → Bool
speaks none c = true
speaks (some filter) c = str_eq filter "" || same_codes (lowered c.language) (normal filter)

abbrev pub keeps : Option (Candidate → Bool) → Candidate → Bool
keeps none c = true
keeps (some keep) c = keep c

pub record Progress : Type 0 where
  pub memory : Memory
  pub coverage : Coverage
  pub produced : ℕ

-- What one row does, and whether it is yielded.
unfoldable pub take_row : Request → Progress → Candidate → Bool × Progress
unfolding is_valid_candidate
take_row q p c =
    if not (is_valid_candidate c)
    then (false, p)
    else (let seen : Coverage = record p.coverage { walked = p.coverage.walked + 1 } in
        if contains p.memory c.identity
        then (false, record p { coverage = record seen { repeats = seen.repeats + 1 } })
        else (let remembered : Progress = record p {
          memory = remember p.memory c.identity;
          coverage = seen;
        } in
            if not (speaks q.language_filter c) || not (keeps q.keep c)
            then (false, remembered)
            else (
              true,
              record remembered {
                coverage = record seen { fresh = seen.fresh + 1 };
                produced = p.produced + 1;
              },
            )))

-- `for candidate in batch`, with its `break` when the budget is spent.
unfoldable pub take_rows : Request → Progress → List Candidate → List Candidate × Progress
take_rows q p [] = ([], p)
take_rows q p (c ∷ batch) =
    let (yielded, p') = take_row q p c in
    let rest = take_rows q p' batch in
    if not yielded
    then rest
    else if leb q.budget p'.produced
    then (c ∷ [], p')
    else (c ∷ rest.0, rest.1)

abbrev pub max_consecutive_errors : ℕ
max_consecutive_errors = 3

pub record Walking (S : Type 0) : Type 0 where
  pub progress : Progress
  pub page : ℕ
  pub errors : ℕ
  pub outside : S

-- Why the loop ended. With no fuel left it has not ended.
pub data Ending : Type 0 where
  budget_met deadline_reached too_many_errors exhausted out_of_fuel : Ending

pub record Walked (S : Type 0) : Type 0 where
  pub yielded : List Candidate
  pub ending : Ending
  pub state : Walking S

module _ {S : Type 0} (index : Index S) (clock : Clock S) (q : Request) (deadline : Option ℕ)
    (key : String) where
  abbrev pub is_late : S → Bool
  is_late s = elim deadline [ none ↦ false | some d ↦ leb d (clock.now s) ]

  -- The cursor after a page that had rows.
  unfoldable pub advance : Walking S → S → Walking S
  advance w t =
      let page = w.page + 1 in
      let p = w.progress in
      if index.resumable_pages
      then record w {
        progress = record p { memory = reached p.memory key page };
        page = page;
        errors = 0;
        outside = index.set_resume_page page t;
      }
      else record w {
        progress = record p { memory = reached p.memory key (index.cursor t) };
        page = page;
        errors = 0;
        outside = t;
      }

  abbrev pub ended : Ending → Walking S → Walked S
  ended e w = record { yielded = []; ending = e; state = w }

  -- The body of the loop once a page was asked for; `again` is the rest of the loop.
  unfoldable pub take_page :
      (Walking S → Walked S) → Walking S → Option (List Candidate) → S → Walked S
  take_page again w none t =
      let failed = w.errors + 1 in
      if leb max_consecutive_errors failed
      then ended too_many_errors (record w { errors = failed; outside = t })
      else again (record w { page = w.page + 1; errors = failed; outside = t })
  take_page again w (some []) t = ended exhausted (record w { outside = t })
  take_page again w (some (c ∷ cs)) t =
      let next = advance w t in
      let (yielded, progress) = take_rows q next.progress (c ∷ cs) in
      let rest = again (record next { progress = progress }) in
      record rest { yielded = yielded ++ rest.yielded }

  -- `while produced < budget`, on fuel for the pages that it asks for.
  unfoldable pub loop : ℕ → Walking S → Walked S
  loop zero w = ended out_of_fuel w
  loop (suc fuel) w =
      let (fetched, t) = fetch_page_with_retry index clock w.page q.page_size w.outside in
      let rest = take_page (loop fuel) w fetched t in
      if not (ltb w.progress.produced q.budget)
      then ended budget_met w
      else if is_late w.outside
      then ended deadline_reached w
      else rest

module _ {S : Type 0} (index : Index S) (clock : Clock S) (q : Request) where
  abbrev pub cursor_name : String
  cursor_name = if str_eq index.cursor_key "" then index.name else index.cursor_key

  -- Where the walk begins, from the index and from the memory.
  unfoldable pub first_page : Memory → S → ℕ × S
  first_page memory s =
      let stored = resume_at memory cursor_name in
      if index.resumable_pages
      then (max (index.resume_page s) stored, s)
      else if ltb 0 stored && ltb (index.cursor s) stored
      then (0, index.set_cursor stored s)
      else (0, s)

  abbrev pub deadline_of : S → Option ℕ
  deadline_of s = elim q.max_seconds [ none ↦ none | some n ↦ some (clock.now s + n) ]

  abbrev pub total_of : Option ℕ
  total_of = elim q.max_seconds [ none ↦ index.total | some n ↦ none ]

  unfoldable pub start : Memory → S → Walking S
  unfolding first_page
  start memory s =
      let (page, t) = first_page memory s in
      record {
        progress = record {
          memory = memory;
          coverage = record {
            index = index.name;
            walked = 0;
            fresh = 0;
            repeats = 0;
            total = total_of;
          };
          produced = 0;
        };
        page = page;
        errors = 0;
        outside = t;
      }

  -- The whole walk, and the file that its `finally` leaves.
  unfoldable pub walk : ℕ → Memory → S → Walked S
  unfolding loop start
  walk fuel memory s = loop index clock q (deadline_of s) cursor_name fuel (start memory s)

  unfoldable pub saved_after : ℕ → Memory → Option Stored → S → Option Stored
  unfolding walk
  saved_after fuel memory file s = save (walk fuel memory s).state.progress.memory file
