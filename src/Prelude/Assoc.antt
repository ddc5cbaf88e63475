-- ===== src/Prelude/Assoc.antt =====
-- Dictionaries with texts as keys, as association lists in the order of insertion.
use mathlib.Core.Path.{◌≡◌}
use mathlib.Core.Option.{Option, none, some}
use mathlib.Core.List.{List, [], ◌∷◌}
use native.Mathlib.Omega.{arith}
use text.Mathlib.Text.{◌==◌ as str_eq}
use text.Mathlib.TextEquality.{eq_iff as str_eq_iff}
use Prim.Native.String.{String}
use frontier_refactor_factor.Prelude.Tests.{if◌then◌else◌}

module _ {ℓ} {A : Type ℓ} where
  -- `d.get(k)`
  abbrev pub find : String → List (String × A) → Option A
  find k [] = none
  find k ((m, a) ∷ d) = let rest = find k d in if str_eq m k then some a else rest

  -- `d[k] = a`
  abbrev pub set : String → A → List (String × A) → List (String × A)
  set k a [] = (k, a) ∷ []
  set k a ((m, b) ∷ d) = let rest = set k a d in if str_eq m k then (m, a) ∷ d else (m, b) ∷ rest

  pub find-set :
      (j k : String) (a : A) (d : List (String × A))
      → find j (set k a d) ≡ (if str_eq k j then some a else find j d)
  find-set j k a [] = ground arith
  find-set j k a ((m, b) ∷ d) =
      ground (arith, find-set j k a d, str_eq_iff m k, str_eq_iff m j, str_eq_iff k j)
