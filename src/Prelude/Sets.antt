-- ===== src/Prelude/Sets.antt =====
-- Equality tests as instances, and Python's sets as lists without repetitions.
use Prim.Native.Nat.{ℕ, zero, suc, ◌<◌}
use Prim.Native.String.{String}
use mathlib.Core.Path.{◌≡◌, refl, ap, sym, subst, ◌∙◌}
use mathlib.Core.Logic.{◌↔◌, inl, inr}
use mathlib.Core.Bool.{Bool, true, false, not, ◌&&◌, ◌||◌}
use mathlib.Core.Option.{Option, none, some}
use mathlib.Core.List.{List, [], ◌∷◌, ◌++◌}
use native.Mathlib.Omega.{arith}
use text.Mathlib.Text.{◌==◌ as str_eq}
use text.Mathlib.TextEquality.{eq_iff as str_eq_iff}
use frontier_refactor_factor.Prelude.Tests.{◌==◌, if◌then◌else◌, Bool-cases, leb}
use frontier_refactor_factor.Prelude.Lists.{any, All, length, select, drop}
use frontier_refactor_factor.Prelude.Decimal.{ℤ, pos, negsuc, int_eq}

pub record Eq {ℓ} (A : Type ℓ) : Type ℓ where
  pub beq : A → A → Bool
  pub beq_iff : (a b : A) → (beq a b ≡ true) ↔ (a ≡ b)

pub nat_eq_iff : (m n : ℕ) → ((m == n) ≡ true) ↔ (m ≡ n)
nat_eq_iff m n = ground arith

from_pos : ℤ → ℕ
from_pos (pos n) = n
from_pos (negsuc n) = n

pub int_eq_iff : (i j : ℤ) → (int_eq i j ≡ true) ↔ (i ≡ j)
int_eq_iff (pos m) (pos n) = ground arith
int_eq_iff (pos m) (negsuc n) = ground arith
int_eq_iff (negsuc m) (pos n) = ground arith
int_eq_iff (negsuc m) (negsuc n) = ground arith

abbrev pub option_eq {ℓ} : {A : Type ℓ} → (A → A → Bool) → Option A → Option A → Bool
option_eq eq none none = true
option_eq eq (some a) (some b) = eq a b
option_eq eq _ _ = false

pub option_eq_iff {ℓ} :
    {A : Type ℓ} ⦃e : Eq A⦄ (a b : Option A) → (option_eq e.beq a b ≡ true) ↔ (a ≡ b)
option_eq_iff none none = (λ _. refl, λ _. refl)
option_eq_iff none (some b) = ground arith
option_eq_iff (some a) none = ground arith
option_eq_iff ⦃e⦄ (some a) (some b) = ground (arith, e.beq_iff a b)

instance abbrev pub eq_nat : Eq ℕ
eq_nat = record { beq = ◌==◌; beq_iff = nat_eq_iff }

instance abbrev pub eq_int : Eq ℤ
eq_int = record { beq = int_eq; beq_iff = int_eq_iff }

instance abbrev pub eq_string : Eq String
eq_string = record { beq = str_eq; beq_iff = str_eq_iff }

instance abbrev pub eq_option {ℓ} : {A : Type ℓ} ⦃e : Eq A⦄ → Eq (Option A)
eq_option ⦃e⦄ = record { beq = option_eq e.beq; beq_iff = option_eq_iff }

module _ {ℓ} {A : Type ℓ} ⦃e : Eq A⦄ where
  -- `a in xs`
  abbrev pub has : List A → A → Bool
  has xs a = any (e.beq a) xs

  -- `{x for x in xs}`
  abbrev pub distinct : List A → List A
  distinct [] = []
  distinct (x ∷ xs) = let rest = distinct xs in if has rest x then rest else x ∷ rest

  pub has-distinct : (xs : List A) (a : A) → has (distinct xs) a ≡ has xs a
  has-distinct [] a = refl
  has-distinct (x ∷ xs) a = ground (arith, has-distinct xs a, has-distinct xs x, e.beq_iff a x)

  All-has : (x : A) (xs : List A) → All (λ y. y ≡ x) xs → (a : A) → has xs a ≡ true → a ≡ x
  All-has x [] h a m = ground arith
  All-has x (y ∷ xs) h a m = ground (arith, h.0, All-has x xs h.1 a, e.beq_iff a y)

  -- Items that are all one make a set of one.
  pub distinct-one : (x : A) (xs : List A) → All (λ y. y ≡ x) xs → distinct (x ∷ xs) ≡ x ∷ []
  distinct-one x [] h = refl
  distinct-one x (y ∷ xs) (h, k) =
      let i = ap (λ z. distinct (z ∷ xs)) h ∙ distinct-one x xs k in
      ap (λ rest. if has rest x then rest else x ∷ rest) i ∙ ground (arith, e.beq_iff x x)

  length-distinct : (x : A) (xs : List A) → 0 < length (distinct (x ∷ xs))
  length-distinct x [] = omega arith
  length-distinct x (y ∷ xs) =
      elim (has (distinct (y ∷ xs)) x)
        as (λ b. 0 < length (if b then distinct (y ∷ xs) else x ∷ distinct (y ∷ xs))) [
          | true ↦ length-distinct y xs
          | false ↦ omega arith
        ]

  at_most_one :
      (b : Bool) (x : A) (rest : List A)
      → 0 < length rest
      → leb (length (if b then rest else x ∷ rest)) 1 ≡ true
      → (b ≡ true) × (leb (length rest) 1 ≡ true)
  at_most_one true x rest h k = (refl, k)
  at_most_one false x rest h k = ground arith

  -- The items of a set of one are all the same.
  pub all_one :
      (x : A) (xs : List A) → leb (length (distinct (x ∷ xs))) 1 ≡ true → All (λ y. y ≡ x) xs
  all_one x [] h = tt
  all_one x (y ∷ xs) h =
      let (m, k) =
        at_most_one (has (distinct (y ∷ xs)) x) x (distinct (y ∷ xs)) (length-distinct y xs) h in
      let same = all_one y xs k in
      let eq = All-has y (y ∷ xs) (refl, same) x (sym (has-distinct (y ∷ xs) x) ∙ m) in
      (sym eq, subst (λ z. All (λ y. y ≡ z) xs) (sym eq) same)

  -- No item stands in the list twice.
  abbrev pub unique : List A → Bool
  unique [] = true
  unique (x ∷ xs) = not (has xs x) && unique xs

  pub has-append : (xs : List A) (y a : A) → has (xs ++ y ∷ []) a ≡ (has xs a || e.beq a y)
  has-append [] y a = ground arith
  has-append (x ∷ xs) y a = ground (arith, has-append xs y a)

  pub has-select : (p : A → Bool) (xs : List A) (a : A) → has (select p xs) a ≡ (p a && has xs a)
  has-select p [] a = ground arith
  has-select p (x ∷ xs) a = ground (arith, has-select p xs a, e.beq_iff a x)

  pub unique-select : (p : A → Bool) (xs : List A) → unique xs ≡ true → unique (select p xs) ≡ true
  unique-select p [] h = refl
  unique-select p (x ∷ xs) h = ground (arith, h, has-select p xs x, unique-select p xs)

  pub has-drop : (n : ℕ) (xs : List A) (a : A) → has xs a ≡ false → has (drop n xs) a ≡ false
  has-drop zero xs a h = h
  has-drop (suc n) [] a h = h
  has-drop (suc n) (x ∷ xs) a h = has-drop n xs a (ground (arith, h))

  pub drop-has : (n : ℕ) (xs : List A) (a : A) → has (drop n xs) a ≡ true → has xs a ≡ true
  drop-has zero xs a h = h
  drop-has (suc n) [] a h = h
  drop-has (suc n) (x ∷ xs) a h = ground (arith, drop-has n xs a h)

  -- Something of the list is not among all but its first items.
  pub first_left :
      (n : ℕ) (x : A) (xs : List A)
      → unique (x ∷ xs) ≡ true
      → 0 < n
      → has (drop n (x ∷ xs)) x ≡ false
  first_left zero x xs u h = elim h [ ]
  first_left (suc n) x xs u h = has-drop n xs x (ground (arith, u))

  -- Two lists have an item in common.
  pub any-has :
      (xs ws : List A)
      → any (λ w. has xs w) ws ≡ true
      → (w : A) × (has ws w ≡ true) × (has xs w ≡ true)
  any-has xs [] h = ground (arith, h)
  any-has xs (w ∷ ws) h = elim (Bool-cases (has xs w)) [
    | inl m ↦ (w, ground (arith, e.beq_iff w w), m)
    | inr m ↦ let (v, p, q) = any-has xs ws (ground (arith, h, m)) in (v, ground (arith, p), q)
  ]
