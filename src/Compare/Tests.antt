-- ===== src/Compare/Tests.antt =====
-- The comparison at an answer with a NaN in it, in units of a tenth.
use frontier_refactor_factor.Prelude.{◌≡◌, refl, true, false}
use frontier_refactor_factor.Compare.{
  nan, infinite, finite, Value, integer, float, text, array, object, nil, cons, end, field, Policy,
  Units, compare,
}
use frontier_refactor_factor.Compare.Laws.{accepts_all, is_json, compare_own_lem}

abbrev strict : Policy
strict = record { rtol = record { above = 0; below = 1 }; atol = 1; equal_nan = false }

abbrev tenths : Units
tenths = record { scale = 10; largest = 1000 }

abbrev answer : Value
answer = object (
    field "a" (array (cons (float (finite true 15)) (cons (float (infinite false)) nil)))
      (field "b" (text "ok") end))

abbrev with_nan : Value
with_nan = array (cons answer (cons (float nan) nil))

compare_own_lem_example :
    compare strict tenths with_nan with_nan ≡ accepts_all strict tenths with_nan
unfolding is_json
compare_own_lem_example = compare_own_lem strict tenths with_nan refl

-- An integer answers for a float within the tolerance, and a float never for an integer.
integers :
    (compare strict tenths (float (finite false 19)) (integer false 2) ≡ true)
    × (compare strict tenths (integer false 2) (float (finite false 20)) ≡ false)
unfolding compare
integers = (refl, refl)

-- A tolerance that overflows: the value differs from itself.
abbrev loose : Policy
loose = record { rtol = record { above = 100; below = 1 }; atol = 0; equal_nan = true }

overflows : compare loose tenths (float (finite false 20)) (float (finite false 20)) ≡ false
unfolding compare
overflows = refl
