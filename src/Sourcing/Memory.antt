-- ===== src/Sourcing/Memory.antt =====
-- The class `Memory` of frf/core/sourcing.py. The set of identities is a list without repetitions,
-- the dictionary of cursors an association list, and the JSON file the two values that it holds.
use frontier_refactor_factor.Prelude.{
  ℕ, String, Bool, Option, none, some, List, [], ◌∷◌, leb, if◌then◌else◌, any, length, sorted,
  str_eq,
}

pub record Memory : Type 0 where
  pub path : String
  pub seen : List String
  pub pages : List (String × ℕ)

-- What `json.dump` writes.
pub record Stored : Type 0 where
  pub seen : List String
  pub pages : List (String × ℕ)

abbrev pub has : List String → String → Bool
has seen identity = any (λ s. str_eq s identity) seen

-- `self.seen.add(identity)`
unfoldable pub remember : Memory → String → Memory
remember m identity = if has m.seen identity then m else record m { seen = identity ∷ m.seen }

-- `candidate in memory`
abbrev pub contains : Memory → String → Bool
contains m identity = has m.seen identity

-- `self.pages.get(name, 0)`
abbrev pub page_of : List (String × ℕ) → String → ℕ
page_of [] name = 0
page_of ((k, n) ∷ pages) name = if str_eq k name then n else page_of pages name

unfoldable pub resume_at : Memory → String → ℕ
resume_at m name = page_of m.pages name

-- `pages[key] = n`
unfoldable pub set_page : List (String × ℕ) → String → ℕ → List (String × ℕ)
set_page [] key n = (key, n) ∷ []
set_page ((k, m) ∷ pages) key n =
    let rest = set_page pages key n in if str_eq k key then (k, n) ∷ pages else (k, m) ∷ rest

abbrev pub max : ℕ → ℕ → ℕ
max a b = if leb a b then b else a

unfoldable pub reached : Memory → String → ℕ → Memory
unfolding set_page
reached m name page = record m { pages = set_page m.pages name (max page (page_of m.pages name)) }

-- A file that is there, or not; without a path nothing is written.
unfoldable pub save : Memory → Option Stored → Option Stored
save m file =
    if str_eq m.path "" then file else some (record { seen = sorted m.seen; pages = m.pages })

-- `set(stored)`
unfoldable pub to_set : List String → List String
to_set [] = []
to_set (s ∷ ss) = let rest = to_set ss in if has rest s then rest else s ∷ rest

abbrev loaded : String → Option Stored → Memory
loaded path none = record { path = path; seen = []; pages = [] }
loaded path (some stored) = record { path = path; seen = to_set stored.seen; pages = stored.pages }

unfoldable pub load : String → Option Stored → Memory
unfolding to_set
load path file =
    if str_eq path "" then record { path = path; seen = []; pages = [] } else loaded path file

unfoldable pub size : Memory → ℕ
size m = length m.seen
