-- ===== src/Exec/Ensures.antt =====
-- Rules for what a block guarantees of the value that it returns, if it returns.
use frontier_refactor_factor.Prelude.{◌≡◌, refl, subst, Bool, true, false, if◌then◌else◌}
use frontier_refactor_factor.Exec.{
  Exec, Result, ok, err, Raised, pure, lift, attempt, map_error, continue, ◌>>=◌,
}

pub ok-injective : {A : Type 0} {a b : A} → ok a ≡ ok b → a ≡ b
ok-injective e = cc

pub map_error-eq-ok :
    {A : Type 0} (h : Raised → Raised) (r : Result A) (a : A) → map_error h r ≡ ok a → r ≡ ok a
map_error-eq-ok h (ok b) a e = e
map_error-eq-ok h (err x) a e = cc

pub record Ensures {W A : Type 0} (P : A → Type 0) (m : Exec W A) : Type 0 where
  pub at : (w : W) (a : A) → (m w).0 ≡ ok a → P a

module _ {W A : Type 0} {P : A → Type 0} where
  pub Ensures-pure : (a : A) → P a → Ensures {W = W} P (pure a)
  Ensures-pure a p = record { at = λ w b e. subst P (ok-injective e) p }

  pub Ensures-lift : (r : Result A) → ((a : A) → r ≡ ok a → P a) → Ensures {W = W} P (lift r)
  Ensures-lift r h = record { at = λ w a e. h a e }

  pub Ensures-attempt : (h : Raised → Raised) (m : Exec W A) → Ensures P m → Ensures P (attempt h m)
  Ensures-attempt h m k = record { at = λ w a e. k.at w a (map_error-eq-ok h (m w).0 a e) }

module _ {W A B : Type 0} {Q : A → Type 0} {P : B → Type 0} where
  continue-at :
      (r : Result A) (w : W) (f : A → Exec W B) (b : B)
      → ((a : A) → r ≡ ok a → Q a)
      → ((a : A) → Q a → Ensures P (f a))
      → (continue (r, w) f).0 ≡ ok b
      → P b
  continue-at (ok a) w f b q h e = (h a (q a refl)).at w b e
  continue-at (err x) w f b q h e = cc

  pub Ensures-bind :
      (m : Exec W A) (f : A → Exec W B)
      → Ensures Q m
      → ((a : A) → Q a → Ensures P (f a))
      → Ensures P (m >>= f)
  Ensures-bind m f k h = record {
    at = λ w b e. let (r, w') = m w in continue-at r w' f b (k.at w) h e;
  }

-- Nothing is known of what a block returns.
pub Ensures-any : {W A : Type 0} (m : Exec W A) → Ensures (λ _. Unit {0}) m
Ensures-any m = record { at = λ w a e. tt }

module _ {W A B : Type 0} {P : B → Type 0} where
  -- Nothing of the first part is needed.
  pub Ensures-skip :
      (m : Exec W A) (f : A → Exec W B) → ((a : A) → Ensures P (f a)) → Ensures P (m >>= f)
  Ensures-skip m f h = Ensures-bind m f (Ensures-any m) λ a _. h a

-- A weaker guarantee.
pub Ensures-map :
    {W A : Type 0} {P Q : A → Type 0} {m : Exec W A}
    → Ensures P m
    → ((a : A) → P a → Q a)
    → Ensures Q m
Ensures-map k h = record { at = λ w a e. h a (k.at w a e) }

pub Ensures-if :
    {W A : Type 0} {P : A → Type 0} (b : Bool) {m n : Exec W A}
    → (b ≡ true → Ensures P m)
    → (b ≡ false → Ensures P n)
    → Ensures P (if b then m else n)
Ensures-if true h k = h refl
Ensures-if false h k = k refl

-- Inversion of a bind that ends in a value: the first part did, in that world.
continue-eq-ok :
    {W A B : Type 0} (x : Result A × W) (f : A → Exec W B) (b : B)
    → (continue x f).0 ≡ ok b
    → (a : A) × (v : W) × (x ≡ (ok a, v)) × ((f a v).0 ≡ ok b)
continue-eq-ok (ok a, v) f b h = (a, v, refl, h)
continue-eq-ok (err e, v) f b h = cc

pub >>=-eq-ok :
    {W A B : Type 0} (m : Exec W A) (f : A → Exec W B) (w : W) (b : B)
    → ((m >>= f) w).0 ≡ ok b
    → (a : A) × (v : W) × (m w ≡ (ok a, v)) × ((f a v).0 ≡ ok b)
>>=-eq-ok m f w b h = continue-eq-ok (m w) f b h

pub lift-eq-ok :
    {W A B : Type 0} (r : Result A) (f : A → Exec W B) (w : W) (b : B)
    → ((lift r >>= f) w).0 ≡ ok b
    → (a : A) × (r ≡ ok a) × ((f a w).0 ≡ ok b)
lift-eq-ok (ok a) f w b h = (a, refl, h)
lift-eq-ok (err e) f w b h = cc

attempted-eq-ok :
    {W A B : Type 0} (g : Raised → Raised) (x : Result A × W) (f : A → Exec W B) (b : B)
    → (continue (let (r, w') = x in (map_error g r, w')) f).0 ≡ ok b
    → (a : A) × (v : W) × (x ≡ (ok a, v)) × ((f a v).0 ≡ ok b)
attempted-eq-ok g (ok a, v) f b h = (a, v, refl, h)
attempted-eq-ok g (err e, v) f b h = cc

pub attempt-eq-ok :
    {W A B : Type 0} (g : Raised → Raised) (m : Exec W A) (f : A → Exec W B) (w : W) (b : B)
    → ((attempt g m >>= f) w).0 ≡ ok b
    → (a : A) × (v : W) × (m w ≡ (ok a, v)) × ((f a v).0 ≡ ok b)
attempt-eq-ok g m f w b h = attempted-eq-ok g (m w) f b h
