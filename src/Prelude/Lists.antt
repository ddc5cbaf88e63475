-- ===== src/Prelude/Lists.antt =====
-- Lists measured and cut by native numbers, Boolean quantifiers over them, and their predicates.
use Prim.Native.Nat.{ℕ, zero, suc, ◌+◌, ◌≤◌}
use mathlib.Core.Path.{◌≡◌, refl, ap, subst}
use mathlib.Core.Bool.{Bool, true, false, not, ◌&&◌, ◌||◌}
use mathlib.Core.Option.{Option, none, some}
use mathlib.Core.List.{List, [], ◌∷◌, ◌++◌, map}
use native.Mathlib.Omega.{arith}
use mathlib.Core.Logic.{◌⊎◌, inl, inr}
use frontier_refactor_factor.Prelude.Tests.{if◌then◌else◌, Bool-cases}

module _ {ℓ} {A : Type ℓ} where
  abbrev pub length : List A → ℕ
  length [] = 0
  length (x ∷ xs) = suc (length xs)

  abbrev pub take : ℕ → List A → List A
  take zero xs = []
  take (suc n) [] = []
  take (suc n) (x ∷ xs) = x ∷ take n xs

  abbrev pub drop : ℕ → List A → List A
  drop zero xs = xs
  drop (suc n) [] = []
  drop (suc n) (x ∷ xs) = drop n xs

  -- `xs[i]`; `none` stands for the IndexError
  abbrev pub get_elem? : List A → ℕ → Option A
  get_elem? [] i = none
  get_elem? (x ∷ xs) zero = some x
  get_elem? (x ∷ xs) (suc i) = get_elem? xs i

  abbrev pub is_nil : List A → Bool
  is_nil [] = true
  is_nil (x ∷ xs) = false

  -- Python's `any` and `all` over a generator.
  abbrev pub any : (A → Bool) → List A → Bool
  any p [] = false
  any p (x ∷ xs) = p x || any p xs

  abbrev pub all : (A → Bool) → List A → Bool
  all p [] = true
  all p (x ∷ xs) = p x && all p xs

  -- `[x for x in xs if p(x)]`
  abbrev pub select : (A → Bool) → List A → List A
  select p [] = []
  select p (x ∷ xs) = let rest = select p xs in if p x then x ∷ rest else rest

  -- `sum(1 for x in xs if p(x))`
  abbrev pub count : (A → Bool) → List A → ℕ
  count p [] = 0
  count p (x ∷ xs) = (if p x then 1 else 0) + count p xs

  pub length-append : (xs ys : List A) → length (xs ++ ys) ≡ length xs + length ys
  length-append [] ys = omega arith
  length-append (x ∷ xs) ys = omega (arith, length-append xs ys)

  pub length-take-le : (n : ℕ) (xs : List A) → length (take n xs) ≤ n
  length-take-le zero xs = omega arith
  length-take-le (suc n) [] = omega arith
  length-take-le (suc n) (x ∷ xs) = omega (arith, length-take-le n xs)

  pub count-le-length : (p : A → Bool) (xs : List A) → count p xs ≤ length xs
  count-le-length p [] = omega arith
  count-le-length p (x ∷ xs) = ground (arith, count-le-length p xs)

  pub all-append : (p : A → Bool) (xs ys : List A) → all p (xs ++ ys) ≡ (all p xs && all p ys)
  all-append p [] ys = refl
  all-append p (x ∷ xs) ys = ground (arith, all-append p xs ys)

  pub is_nil-append : (xs : List A) (x : A) → is_nil (xs ++ x ∷ []) ≡ false
  is_nil-append [] x = refl
  is_nil-append (y ∷ xs) x = refl

  pub drop-append : (xs ys : List A) → drop (length xs) (xs ++ ys) ≡ ys
  drop-append [] ys = refl
  drop-append (x ∷ xs) ys = drop-append xs ys

  -- A Boolean predicate that selects nothing holds nowhere.
  pub select-not_nil : (p : A → Bool) (xs : List A) → is_nil (select (λ x. not (p x)) xs) ≡ all p xs
  select-not_nil p [] = refl
  select-not_nil p (x ∷ xs) = ground (arith, select-not_nil p xs)

module _ {ℓ κ} {A : Type ℓ} where
  -- Every item satisfies the predicate.
  abbrev pub All : (A → Type κ) → List A → Type κ
  All P [] = Unit
  All P (x ∷ xs) = P x × All P xs

  pub All-append : (P : A → Type κ) (xs ys : List A) → All P xs → All P ys → All P (xs ++ ys)
  All-append P [] ys hx hy = hy
  All-append P (x ∷ xs) ys hx hy = (hx.0, All-append P xs ys hx.1 hy)

module _ {ℓ κ} {A : Type ℓ} {B : Type κ} where
  pub length-map : (f : A → B) (xs : List A) → length (map f xs) ≡ length xs
  length-map f [] = refl
  length-map f (x ∷ xs) = ap suc (length-map f xs)

module _ {ℓ ι κ} {A : Type ℓ} where
  -- What holds of every item for each index holds of every item for all indices at once.
  pub All-each :
      {I : Type ι} (P : I → A → Type κ) (xs : List A)
      → ((i : I) → All (P i) xs)
      → All (λ x. (i : I) → P i x) xs
  All-each P [] h = tt
  All-each P (x ∷ xs) h = (λ i. (h i).0, All-each P xs λ i. (h i).1)

  pub All-unmap :
      {B : Type ι} (f : A → B) (P : B → Type κ) (xs : List A)
      → All P (map f xs)
      → All (λ x. P (f x)) xs
  All-unmap f P [] h = tt
  All-unmap f P (x ∷ xs) (h, k) = (h, All-unmap f P xs k)

module _ {ℓ κ μ} {A : Type ℓ} where
  pub All-weaken :
      (P : A → Type κ) (Q : A → Type μ) (xs : List A) → ((x : A) → P x → Q x) → All P xs → All Q xs
  All-weaken P Q [] f h = tt
  All-weaken P Q (x ∷ xs) f (h, k) = (f x h, All-weaken P Q xs f k)

-- The item is one of the list.
abbrev pub In : {A : Type 0} → A → List A → Type 0
In a [] = ⊥
In a (x ∷ xs) = (x ≡ a) ⊎ In a xs

pub All-In {κ} : {A : Type 0} (P : A → Type κ) (xs : List A) (a : A) → All P xs → In a xs → P a
All-In P [] a h m = elim m [ ]
All-In P (x ∷ xs) a (h, k) (inl e) = subst P e h
All-In P (x ∷ xs) a (h, k) (inr m) = All-In P xs a k m

module _ {A : Type 0} (P : A → Type 0) (q : A → Bool) where
  pub All-select : (xs : List A) → All P xs → All P (select q xs)
  All-select [] h = tt
  All-select (x ∷ xs) (h, hs) =
      elim (q x) as (λ b. All P (if b then x ∷ select q xs else select q xs)) [
        | true ↦ (h, All-select xs hs)
        | false ↦ All-select xs hs
      ]

module _ {A : Type 0} (q : A → Bool) where
  pub select-All : (xs : List A) → All (λ x. q x ≡ true) (select q xs)
  select-All [] = tt
  select-All (x ∷ xs) = elim (Bool-cases (q x)) [
    | inl h ↦ rw h (h, select-All xs)
    | inr h ↦ rw h (select-All xs)
  ]
