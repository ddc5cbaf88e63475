-- ===== src/Prelude/Text.antt =====
-- Messages. A message is kept as the expression that builds it: a text, Python's `format % args`,
-- a prefix `t[:n]`, or two texts one after the other. Nothing that the program decides reads one.
use Prim.Native.Nat.{ℕ}
use Prim.Native.String.{String, compare}
use mathlib.Core.Bool.{Bool, true, false, ◌&&◌}
use mathlib.Core.Option.{none, some}
use mathlib.Core.List.{List, [], ◌∷◌}
use text.Mathlib.Text.{is_le, find?, ◌==◌ as str_eq}
use frontier_refactor_factor.Prelude.Tests.{◌==◌, leb, if◌then◌else◌}
use frontier_refactor_factor.Prelude.Decimal.{ℤ, pos, negsuc, int_eq}

pub data Arg : Type 0 where
  num : ℕ → Arg
  str : String → Arg
  -- a quotient of two counts
  share : ℕ → ℕ → Arg
  int : ℤ → Arg
  -- a list of integers
  ints : List ℤ → Arg

pub data Message : Type 0 where
  lit : String → Message
  fmt : String → List Arg → Message
  clip : ℕ → Message → Message
  cat : Message → Message → Message

-- `sep.join(ts)`
abbrev pub join : String → List Message → Message
join sep [] = lit ""
join sep (t ∷ []) = t
join sep (t ∷ u ∷ ts) = cat t (cat (lit sep) (join sep (u ∷ ts)))

unfoldable pub insert : String → List String → List String
insert s [] = s ∷ []
insert s (t ∷ ts) = elim (is_le (compare s t)) [ true ↦ s ∷ t ∷ ts | false ↦ t ∷ insert s ts ]

-- `sorted(ts)`
unfoldable pub sorted : List String → List String
unfolding insert
sorted [] = []
sorted (t ∷ ts) = insert t (sorted ts)

abbrev int_le : ℤ → ℤ → Bool
int_le (pos m) (pos n) = leb m n
int_le (negsuc m) (negsuc n) = leb n m
int_le (negsuc m) (pos n) = true
int_le (pos m) (negsuc n) = false

unfoldable pub insert_int : ℤ → List ℤ → List ℤ
insert_int x [] = x ∷ []
insert_int x (y ∷ ys) = let rest = insert_int x ys in if int_le x y then x ∷ y ∷ ys else y ∷ rest

-- `sorted(xs)`
unfoldable pub sorted_ints : List ℤ → List ℤ
unfolding insert_int
sorted_ints [] = []
sorted_ints (x ∷ xs) = insert_int x (sorted_ints xs)

-- `mark in text`
abbrev pub has_text : String → String → Bool
has_text text mark = elim (find? text mark) [ none ↦ false | some i ↦ true ]

abbrev ints_eq : List ℤ → List ℤ → Bool
ints_eq [] [] = true
ints_eq (x ∷ xs) (y ∷ ys) = int_eq x y && ints_eq xs ys
ints_eq _ _ = false

arg_eq : Arg → Arg → Bool
arg_eq (num m) (num n) = m == n
arg_eq (str s) (str t) = str_eq s t
arg_eq (share a b) (share c d) = a == c && b == d
arg_eq (int x) (int y) = int_eq x y
arg_eq (ints xs) (ints ys) = ints_eq xs ys
arg_eq _ _ = false

args_eq : List Arg → List Arg → Bool
unfolding arg_eq
args_eq [] [] = true
args_eq (a ∷ as') (b ∷ bs) = arg_eq a b && args_eq as' bs
args_eq _ _ = false

unfoldable pub message_eq : Message → Message → Bool
unfolding args_eq
message_eq (lit s) (lit t) = str_eq s t
message_eq (fmt f xs) (fmt g ys) = str_eq f g && args_eq xs ys
message_eq (clip m s) (clip n t) = m == n && message_eq s t
message_eq (cat s t) (cat u v) = message_eq s u && message_eq t v
message_eq _ _ = false
