-- ===== src/Compare.antt =====
-- `compare_numeric` of frf/observe/compare/numeric.py: results that are JSON values, with floats
-- compared under a policy. A finite float is a signed number of units, of which an integer has
-- `scale`, and arithmetic that passes the largest of them overflows; the relative tolerance is a
-- quotient. The reasons of a difference are left out.
pub mod Laws
mod Tests
use frontier_refactor_factor.Prelude.{
  ℕ, zero, suc, ◌+◌, ◌-◌, ◌*◌, String, Bool, true, false, not, ◌&&◌, ◌||◌, Option, none, some, leb,
  ◌==◌, if◌then◌else◌, str_eq, Fraction,
}

pub data Float : Type 0 where
  nan : Float
  -- whether it is negative
  infinite : Bool → Float
  finite : Bool → ℕ → Float

mutual
  pub data Value : Type 0 where
    null : Value
    boolean : Bool → Value
    integer : Bool → ℕ → Value
    float : Float → Value
    text : String → Value
    array : Items → Value
    object : Fields → Value

  pub data Items : Type 0 where
    nil : Items
    cons : Value → Items → Items

  pub data Fields : Type 0 where
    end : Fields
    field : String → Value → Fields → Fields

-- A policy that is valid; both tolerances are finite and not negative.
pub record Policy : Type 0 where
  pub rtol : Fraction
  pub atol : ℕ
  pub equal_nan : Bool

-- The floats: how many units are one, and how many the largest has.
pub record Units : Type 0 where
  pub scale : ℕ
  pub largest : ℕ

abbrev pub same_bool : Bool → Bool → Bool
same_bool true b = b
same_bool false b = not b

-- `abs(a - b)` of two signed numbers
abbrev pub distance : Bool → ℕ → Bool → ℕ → ℕ
distance s a t b = if same_bool s t then (a - b) + (b - a) else a + b

-- `math.isfinite(atol + rtol * abs(left))`
abbrev pub is_allowed : Policy → Units → ℕ → Bool
is_allowed p u a = leb (p.atol * p.rtol.below + p.rtol.above * a) (u.largest * p.rtol.below)

-- `abs(left - right) <= atol + rtol * abs(left)`, if that is finite. An integer on the right that
-- is no float raises an OverflowError, which makes it differ.
unfoldable pub is_within : Policy → Units → Bool → ℕ → Bool → ℕ → Bool
is_within p u s a t b =
    leb b u.largest
    && (is_allowed p u a
        && leb (distance s a t b * p.rtol.below) (p.atol * p.rtol.below + p.rtol.above * a))

-- A float against what a right side of a numeric type is.
unfoldable pub same_float : Policy → Units → Float → Float → Bool
unfolding is_within
same_float p u nan nan = p.equal_nan
same_float p u nan _ = false
same_float p u (infinite s) (infinite t) = same_bool s t
same_float p u (infinite s) _ = false
same_float p u (finite s a) (finite t b) = is_within p u s a t b
same_float p u (finite s a) _ = false

abbrev pub number_of : Units → Value → Option Float
number_of u (float f) = some f
number_of u (integer s n) = some (finite s (n * u.scale))
number_of u _ = none

-- Of equal types, and equal: numbers that are 0 have no sign.
abbrev pub same_integer : Bool → ℕ → Bool → ℕ → Bool
same_integer s a t b = a == b && (a == 0 || same_bool s t)

-- `value[key]`
abbrev pub get : String → Fields → Option Value
get k end = none
get k (field m v fs) = let rest = get k fs in if str_eq m k then some v else rest

abbrev pub has_key : Fields → String → Bool
has_key end k = false
has_key (field m v fs) k = str_eq m k || has_key fs k

abbrev pub has_keys : Fields → Fields → Bool
has_keys end gs = true
has_keys (field k v fs) gs = has_key gs k && has_keys fs gs

unfoldable mutual
  unfolding same_float

  pub compare : Policy → Units → Value → Value → Bool
  compare p u (float f) right = elim (number_of u right) [
    | none ↦ false
    | some g ↦ same_float p u f g
  ]
  compare p u null null = true
  compare p u (boolean a) (boolean b) = same_bool a b
  compare p u (integer s a) (integer t b) = same_integer s a t b
  compare p u (text s) (text t) = str_eq s t
  compare p u (array xs) (array ys) = compare_items p u xs ys
  compare p u (object fs) (object gs) =
      (has_keys fs gs && has_keys gs fs) && compare_fields p u fs gs
  compare p u _ _ = false

  -- Arrays of different lengths differ.
  pub compare_items : Policy → Units → Items → Items → Bool
  compare_items p u nil nil = true
  compare_items p u (cons x xs) (cons y ys) = compare p u x y && compare_items p u xs ys
  compare_items p u _ _ = false

  -- The fields of the one, each against the field of that name of the other.
  pub compare_fields : Policy → Units → Fields → Fields → Bool
  compare_fields p u end gs = true
  compare_fields p u (field k v fs) gs =
      elim (get k gs) [ none ↦ false | some w ↦ compare p u v w ] && compare_fields p u fs gs
