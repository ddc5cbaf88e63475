-- ===== src/Compare/Laws.antt =====
-- What the comparison says of a value and itself.
use frontier_refactor_factor.Prelude.{
  ◌≡◌, refl, ap, String, Bool, true, false, not, leb, ◌&&◌, none, some, arith, str_eq, str_eq_iff,
}
use frontier_refactor_factor.Compare.{
  Float, nan, infinite, finite, Value, null, boolean, integer, float, text, array, object, Items,
  nil, cons, Fields, end, field, Policy, Units, is_allowed, is_within, same_float, get, has_key,
  has_keys, compare, compare_items, compare_fields,
}

-- A float that a policy takes for equal to itself: a NaN if it says so, an infinity, and a number
-- for which the tolerance is finite.
abbrev pub accepts : Policy → Units → Float → Bool
accepts p u nan = p.equal_nan
accepts p u (infinite s) = true
accepts p u (finite s a) = leb a u.largest && is_allowed p u a

-- So is every float in the value.
unfoldable mutual
  pub accepts_all : Policy → Units → Value → Bool
  accepts_all p u (float f) = accepts p u f
  accepts_all p u (array xs) = accepts_items p u xs
  accepts_all p u (object fs) = accepts_fields p u fs
  accepts_all p u _ = true

  pub accepts_items : Policy → Units → Items → Bool
  accepts_items p u nil = true
  accepts_items p u (cons x xs) = accepts_all p u x && accepts_items p u xs

  pub accepts_fields : Policy → Units → Fields → Bool
  accepts_fields p u end = true
  accepts_fields p u (field k v fs) = accepts_all p u v && accepts_fields p u fs

-- The names of the fields of each object differ, as those of a dictionary do.
unfoldable mutual
  pub is_json : Value → Bool
  is_json (array xs) = is_json_items xs
  is_json (object fs) = is_json_fields fs
  is_json _ = true

  pub is_json_items : Items → Bool
  is_json_items nil = true
  is_json_items (cons x xs) = is_json x && is_json_items xs

  pub is_json_fields : Fields → Bool
  is_json_fields end = true
  is_json_fields (field k v fs) = not (has_key fs k) && (is_json v && is_json_fields fs)

float_self : (p : Policy) (u : Units) (f : Float) → same_float p u f f ≡ accepts p u f
unfolding same_float is_within
float_self p u nan = ground arith
float_self p u (infinite s) = ground arith
float_self p u (finite s a) = ground arith

-- Each field of the one is in the other.
abbrev Within : Fields → Fields → Type 0
Within fs gs = (k : String) → has_key fs k ≡ true → get k gs ≡ get k fs

has_keys-Within :
    (fs gs : Fields)
    → ((k : String) → has_key fs k ≡ true → has_key gs k ≡ true)
    → has_keys fs gs ≡ true
has_keys-Within end gs h = refl
has_keys-Within (field k v fs) gs h = ground (
  arith,
  h k (ground (arith, str_eq_iff k k)),
  has_keys-Within fs gs λ m e. h m (ground (arith, e)),
)

has_keys_self : (fs : Fields) → has_keys fs fs ≡ true
has_keys_self fs = has_keys-Within fs fs λ k e. e

has_key-same : (k m : String) (fs : Fields) → str_eq k m ≡ true → has_key fs k ≡ has_key fs m
has_key-same k m fs e = ap (has_key fs) ((str_eq_iff k m).0 e)

Within-rest :
    (k : String) (v : Value) (fs gs : Fields)
    → has_key fs k ≡ false
    → Within (field k v fs) gs
    → Within fs gs
Within-rest k v fs gs n h m e = ground (arith, h m, e, n, has_key-same k m fs)

both_parts : (a b x y : Bool) → x ≡ a → y ≡ b → (x && y) ≡ (a && b)
both_parts a b x y h k = ground (arith, h, k)

parts : (a b : Bool) → (a && b) ≡ true → (a ≡ true) × (b ≡ true)
parts a b h = (ground (arith, h), ground (arith, h))

-- The first of the fields.
first_field :
    (k : String) (v : Value) (fs gs : Fields) → Within (field k v fs) gs → get k gs ≡ some v
first_field k v fs gs h = ground (arith, h k, str_eq_iff k k)

absent :
    (k : String) (fs : Fields) (b : Bool) → (not (has_key fs k) && b) ≡ true → has_key fs k ≡ false
absent k fs b h = ground (arith, h)

mutual
  unfolding compare accepts_all is_json

  compare_self :
      (p : Policy) (u : Units) (v : Value) → is_json v ≡ true → compare p u v v ≡ accepts_all p u v
  compare_self p u null w = ground arith
  compare_self p u (boolean b) w = ground arith
  compare_self p u (integer s n) w = ground arith
  compare_self p u (float f) w = float_self p u f
  compare_self p u (text s) w = ground (arith, str_eq_iff s s)
  compare_self p u (array xs) w = compare_items_self p u xs w
  compare_self p u (object fs) w =
      rw (has_keys_self fs) (compare_fields_self p u fs fs w λ k e. refl)

  compare_items_self :
      (p : Policy) (u : Units) (xs : Items)
      → is_json_items xs ≡ true
      → compare_items p u xs xs ≡ accepts_items p u xs
  compare_items_self p u nil w = ground arith
  compare_items_self p u (cons x xs) w =
      let (first, rest) = parts (is_json x) (is_json_items xs) w in
      both_parts (accepts_all p u x) (accepts_items p u xs) (compare p u x x)
        (compare_items p u xs xs) (compare_self p u x first) (compare_items_self p u xs rest)

  compare_fields_self :
      (p : Policy) (u : Units) (fs gs : Fields)
      → is_json_fields fs ≡ true
      → Within fs gs
      → compare_fields p u fs gs ≡ accepts_fields p u fs
  compare_fields_self p u end gs w h = ground arith
  compare_fields_self p u (field k v fs) gs w h =
      let (new, sound) = parts (not (has_key fs k)) (is_json v && is_json_fields fs) w in
      let (first, rest) = parts (is_json v) (is_json_fields fs) sound in
      both_parts (accepts_all p u v) (accepts_fields p u fs)
        (elim (get k gs) [ none ↦ false | some w' ↦ compare p u v w' ]) (compare_fields p u fs gs)
        (rw (first_field k v fs gs h) (compare_self p u v first))
        (compare_fields_self p u fs gs rest
          (Within-rest k v fs gs (absent k fs (is_json v && is_json_fields fs) w) h))

-- The reference's own answer, graded against itself under a policy, passes exactly when the policy
-- takes every float in it for equal to itself: a NaN only if it says so, an infinity always, and a
-- number if the tolerance that is allowed for it does not overflow. No order of keys makes a JSON
-- value differ from itself.
pub compare_own_lem :
    (p : Policy) (u : Units) (v : Value) → is_json v ≡ true → compare p u v v ≡ accepts_all p u v
compare_own_lem p u v w = compare_self p u v w
