-- ===== src/Roll/Seen.antt =====
-- What the waves of a roll add to the identities that it has seen.
use frontier_refactor_factor.Prelude.{
  ℕ, zero, suc, ◌+◌, ◌≤◌, ◌<◌, ◌≡◌, refl, sym, ap, ◌∙◌, String, Bool, true, false, not, ◌||◌, List,
  [], ◌∷◌, arith, if◌then◌else◌, any, count, str_eq, str_eq_iff,
}
use frontier_refactor_factor.Exec.{Result, ok, err, refusal, error, is_exception}
use frontier_refactor_factor.Exec.Ensures.{ok-injective}
use frontier_refactor_factor.Pipeline.Spec.{Candidate}
use frontier_refactor_factor.Diversity.{accept}
use frontier_refactor_factor.Roll.{Roll, fill_wave, count_run}

abbrev pub has : List String → String → Bool
has seen x = any (λ s. str_eq s x) seen

-- A count is smaller where the predicate is, and loses an item of the list.
count-below :
    (p q : String → Bool) (xs : List String)
    → ((s : String) → (not (q s) || p s) ≡ true)
    → count q xs ≤ count p xs
count-below p q [] m = omega arith
count-below p q (x ∷ xs) m = ground (arith, m x, count-below p q xs m)

same-value : (p : String → Bool) (x y : String) → str_eq y x ≡ true → p y ≡ p x
same-value p x y e = ap p ((str_eq_iff y x).0 e)

pub count-drop :
    (p q : String → Bool) (x : String) (xs : List String)
    → ((s : String) → (not (q s) || p s) ≡ true)
    → p x ≡ true
    → q x ≡ false
    → any (λ s. str_eq s x) xs ≡ true
    → count q xs < count p xs
count-drop p q x [] m h k e = cc
count-drop p q x (y ∷ xs) m h k e = ground (
  arith,
  m y,
  h,
  k,
  e,
  count-drop p q x xs m h k,
  count-below p q xs m,
  same-value p x y,
  same-value q x y,
)

-- The source still has so many identities that were not seen.
abbrev pub unseen_in : List String → List String → ℕ
unseen_in supply seen = count (λ s. not (has seen s)) supply

-- What fill_wave adds to the seen ones, and that it keeps the request.
abbrev pub Sees : Roll → Roll → Type 0
Sees r s =
    ((x : String) → (not (has r.seen x) || has s.seen x) ≡ true) × (s.requested ≡ r.requested)

Sees-trans : (r s t : Roll) → Sees r s → Sees s t → Sees r t
Sees-trans r s t (h, e) (k, f) = (λ x. ground (arith, h x, k x), f ∙ e)

Sees-refl : (r : Roll) → Sees r r
Sees-refl r = (λ x. ground arith, refl)

pub fill_wave-Sees : (room : ℕ) (cs : List Candidate) (r : Roll) → Sees r (fill_wave room cs r).1
unfolding fill_wave
fill_wave-Sees zero cs r = Sees-refl r
fill_wave-Sees (suc room) [] r = Sees-refl r
fill_wave-Sees (suc room) (c ∷ cs) r =
    let noted : Roll = record r {
      seen = c.identity ∷ r.seen;
      diversity = (accept r.diversity c.identity).1;
    } in
    let first : Sees r noted = (λ x. ground arith, refl) in
    elim (accept r.diversity c.identity).0
      as (λ b.
        Sees r
          (if b
            then (c ∷ (fill_wave room cs noted).0, (fill_wave room cs noted).1)
            else fill_wave (suc room) cs noted).1) [
              | true ↦
                  Sees-trans r noted (fill_wave room cs noted).1 first
                    (fill_wave-Sees room cs noted)
              | false ↦
                  Sees-trans r noted (fill_wave (suc room) cs noted).1 first
                    (fill_wave-Sees (suc room) cs noted)
            ]

-- The first candidate of a batch is seen, where there is room for one.
pub fill_wave-first :
    (room : ℕ) (c : Candidate) (cs : List Candidate) (r : Roll)
    → 0 < room
    → has (fill_wave room (c ∷ cs) r).1.seen c.identity ≡ true
unfolding fill_wave
fill_wave-first zero c cs r o = elim o [ ]
fill_wave-first (suc room) c cs r o =
    let noted : Roll = record r {
      seen = c.identity ∷ r.seen;
      diversity = (accept r.diversity c.identity).1;
    } in
    elim (accept r.diversity c.identity).0
      as (λ b.
        has
          (if b
            then (c ∷ (fill_wave room cs noted).0, (fill_wave room cs noted).1)
            else fill_wave (suc room) cs noted).1.seen
          c.identity
        ≡ true) [
          | true ↦
              ground (
                arith,
                (fill_wave-Sees room cs noted).0 c.identity,
                str_eq_iff c.identity c.identity,
              )
          | false ↦ ground (
            arith,
            (fill_wave-Sees (suc room) cs noted).0 c.identity,
            str_eq_iff c.identity c.identity,
          )
        ]

pub count_run-seen :
    (r s : Roll) (answer : Result ℕ)
    → count_run r answer ≡ ok s
    → (s.seen ≡ r.seen) × (s.requested ≡ r.requested)
unfolding count_run
count_run-seen r s (ok n) e =
    (sym (ap (λ x. x.seen) (ok-injective e)), sym (ap (λ x. x.requested) (ok-injective e)))
count_run-seen r s (err (refusal x)) e =
    (sym (ap (λ x. x.seen) (ok-injective e)), sym (ap (λ x. x.requested) (ok-injective e)))
count_run-seen r s (err (error x)) e =
    elim (is_exception x.class)
        as (λ b.
          (if b
              then ok (record r { infrastructure_failures = r.infrastructure_failures + 1 })
              else err (error x))
            ≡ ok s
          → (s.seen ≡ r.seen) × (s.requested ≡ r.requested)) [
            | true ↦ λ p. (
              sym (ap (λ x. x.seen) (ok-injective p)),
              sym (ap (λ x. x.requested) (ok-injective p)),
            )
            | false ↦ λ p. cc
          ]
      e
