-- ===== src/Sourcing/Laws/Tests.antt =====
-- Walks over a small index, and the theorems at it.
use frontier_refactor_factor.Prelude.{
  ℕ, zero, suc, ◌+◌, ◌*◌, ◌≤◌, ◌≡◌, ◌≢◌, refl, String, true, not, ◌||◌, none, some, [], ◌∷◌, arith,
  length, All,
}
use frontier_refactor_factor.Pipeline.Spec.{Candidate, normal, lowered}
use frontier_refactor_factor.Sourcing.Memory.{
  Memory, contains, remember, resume_at, reached, save, load,
}
use frontier_refactor_factor.Sourcing.Fetch.{
  Index, Clock, Page, rows, raises, transport_error, after_answer, try_fetch, fetch_page_with_retry,
}
use frontier_refactor_factor.Sourcing.Walk.{
  Request, out_of_fuel, advance, take_row, take_rows, take_page, loop, start, walk,
}
use frontier_refactor_factor.Sourcing.Laws.Memory.{load-save}
use frontier_refactor_factor.Sourcing.Laws.Fresh.{IsNewTo, IsIn, IsDistinct, Differs}
use frontier_refactor_factor.Sourcing.Laws.Rows.{IsWanted}
use frontier_refactor_factor.Sourcing.Laws.Loop.{walk_yields, walk_accounts, walks_disjoint}
use frontier_refactor_factor.Sourcing.Laws.Ends.{is_dry, walk_ends}
use frontier_refactor_factor.Sourcing.Laws.Waits.{fetch_waits}

abbrev row : String → String → Candidate
row identity language = record {
  identity = identity;
  scale = "module";
  language = language;
  source = "github";
}

-- The first page has a repetition and a row of another language; the second cannot be had; the
-- third has a row without an identity; the fourth is empty. The world is the clock.
abbrev pages : ℕ → Page
pages zero = rows (row "a" "Python" ∷ row "b" "go" ∷ row "a" "Python" ∷ [])
pages (suc zero) = raises transport_error
pages (suc (suc zero)) = rows (row "" "python" ∷ row "c" "python" ∷ [])
pages (suc (suc (suc n))) = rows []

abbrev index : Index ℕ
index = record {
  name = "search";
  cursor_key = "";
  resumable_pages = true;
  page = λ n size s. (pages n, s + 1);
  total = some 5;
  resume_page = λ s. 0;
  set_resume_page = λ n s. s;
  cursor = λ s. 0;
  set_cursor = λ n s. s;
}

abbrev clock : Clock ℕ
clock = record { now = λ s. s; sleep = λ n s. s + n }

abbrev request : Request
request = record {
  budget = 10;
  page_size = 50;
  keep = none;
  language_filter = some " Python";
  max_seconds = none;
}

abbrev empty : Memory
empty = record { path = "memory.json"; seen = []; pages = [] }

walked : (walk index clock request 7 empty 0).yielded ≡ row "a" "Python" ∷ row "c" "python" ∷ []
unfolding walk loop start take_page take_rows take_row advance fetch_page_with_retry try_fetch
    after_answer normal lowered remember reached resume_at
walked = refl

walk_yields_example :
    (length (walk index clock request 7 empty 0).yielded ≤ 10)
    × All (IsNewTo []) (walk index clock request 7 empty 0).yielded
    × All
        (IsIn (walk index clock request 7 empty 0).state.progress.memory.seen)
        (walk index clock request 7 empty 0).yielded
    × All (IsWanted request) (walk index clock request 7 empty 0).yielded
    × IsDistinct (walk index clock request 7 empty 0).yielded
walk_yields_example = walk_yields index clock request 7 empty 0

walk_accounts_example :
    ((not (contains empty "a")
        || contains (walk index clock request 7 empty 0).state.progress.memory "a")
      ≡ true)
    × (resume_at empty "search"
        ≤ resume_at (walk index clock request 7 empty 0).state.progress.memory "search")
    × ((walk index clock request 7 empty 0).state.progress.coverage.fresh
        ≡ length (walk index clock request 7 empty 0).yielded)
    × ((walk index clock request 7 empty 0).state.progress.coverage.fresh
          + (walk index clock request 7 empty 0).state.progress.coverage.repeats
        ≤ (walk index clock request 7 empty 0).state.progress.coverage.walked)
walk_accounts_example = walk_accounts index clock request 7 empty 0 "a" "search"

walks_disjoint_example :
    All
      (λ c.
        All
          (Differs c)
          (walk index clock request 7
            (walk index clock request 7 empty 0).state.progress.memory
            9).yielded)
      (walk index clock request 7 empty 0).yielded
walks_disjoint_example = walks_disjoint index index clock request request 7 empty 0 9

dry_from_three : (page : ℕ) (t : ℕ) → 3 ≤ page → is_dry (pages page) ≡ true
dry_from_three zero t h = absurd (omega arith)
dry_from_three (suc zero) t h = absurd (omega arith)
dry_from_three (suc (suc zero)) t h = absurd (omega arith)
dry_from_three (suc (suc (suc n))) t h = refl

walk_ends_example : (walk index clock request 6 empty 0).ending ≢ out_of_fuel
walk_ends_example = walk_ends index clock request 3 6 empty 0 dry_from_three (omega arith)

fetch_waits_example : (fetch_page_with_retry index clock 1 50 0).1 ≤ 0 + 3 * (1 + 180)
fetch_waits_example = fetch_waits index clock 1 50 1 (λ n s. refl) (λ s. omega arith) 0

abbrev drained : Memory
drained = record { path = "memory.json"; seen = "b" ∷ "a" ∷ []; pages = ("search", 2) ∷ [] }

load-save_example :
    (contains (load "memory.json" (save drained none)) "a" ≡ contains drained "a")
    × (resume_at (load "memory.json" (save drained none)) "a" ≡ resume_at drained "a")
load-save_example = load-save drained none "a" refl
