-- ===== src/Diversity/Laws/Cap.antt =====
-- The cap of a scale over all the jobs that share it.
use frontier_refactor_factor.Prelude.{
  ℕ, String, Bool, ◌&&◌, Option, none, some, List, [], ◌∷◌, leb, if◌then◌else◌, str_eq,
}
use frontier_refactor_factor.Diversity.{DiversityPolicy, repository_key, counted, Offer}

abbrev pub min : ℕ → ℕ → ℕ
min a b = if leb a b then a else b

-- The offer is for that scale, of a candidate from that repository.
abbrev pub is_from : String → String → Offer → Bool
is_from scale key o = str_eq o.scale scale && str_eq (repository_key o.identity) key

-- The cap of the first job of a scale, which is one at least; 0 where there is none.
abbrev pub first_cap : String → List Offer → ℕ
first_cap scale [] = 0
first_cap scale (o ∷ os) =
    let rest = first_cap scale os in
    if str_eq o.scale scale then (if leb 1 o.cap then o.cap else 1) else rest

abbrev cap_of : Option DiversityPolicy → ℕ → ℕ
cap_of none n = n
cap_of (some p) n = p.max_per_repository

abbrev held_in : String → Option DiversityPolicy → ℕ
held_in key none = 0
held_in key (some p) = counted p key
