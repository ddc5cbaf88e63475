-- ===== src/Timing/Laws/Runs.antt =====
-- What `measure` reports, whatever the stopwatches answer.
use frontier_refactor_factor.Prelude.{
  sym, not, ◌||◌, map, has, all, eq_string, str_eq_iff, Bool-cases, inl, inr, All-weaken, ℕ, ◌≡◌,
  ◌<◌, refl, ap, subst, String, Bool, true, false, ◌&&◌, Option, none, some, List, [], ◌∷◌, ◌++◌,
  if◌then◌else◌, ltb, arith, Fraction, set, is_nil, All, fmt, str, lit, str_eq,
}
use frontier_refactor_factor.Exec.{Exec, Result, ok, err, refusal, error, Raised, is_exception}
use frontier_refactor_factor.Exec.Ensures.{
  Ensures, Ensures-pure, Ensures-lift, Ensures-bind, Ensures-if, ok-injective, Ensures-map,
  >>=-eq-ok,
}
use frontier_refactor_factor.Timing.{
  SpeedResult, is_one, worst_of, Cost, Measured, no_result, conclude_shape, conclude,
}
use frontier_refactor_factor.Timing.Measure.{
  paired_ratios, measure_shape, caught, try_shape, measure_shapes, measure,
}
use frontier_refactor_factor.Timing.Laws.Shapes.{
  Fair, is_established, conclude_shape-Fair, conclude-is_established,
}
use frontier_refactor_factor.Timing.Laws.Ratios.{paired_ratios-Positive}

-- What holds of every entry of a dictionary holds when one is set.
All-set :
    (P : String × Measured → Type 0) (k : String) (m : Measured) (d : List (String × Measured))
    → P (k, m)
    → All P d
    → All P (set k m d)
All-set P k m [] f h = (f, tt)
All-set P k m ((j, n) ∷ d) f (g, h) = elim (Bool-cases (str_eq j k)) [
  | inl e ↦ rw e (subst (λ i. P (i, m)) (sym ((str_eq_iff j k).0 e)) f, h)
  | inr e ↦ rw e (g, All-set P k m d f h)
]

abbrev pub timed_shapes : List (String × Measured) → List String
timed_shapes = map (λ (n, m). n)

timed_shapes-set :
    (k : String) (m : Measured) (d : List (String × Measured)) (j : String)
    → has (timed_shapes (set k m d)) j ≡ (str_eq j k || has (timed_shapes d) j)
timed_shapes-set k m [] j = ground arith
timed_shapes-set k m ((i, n) ∷ d) j =
    ground (arith, timed_shapes-set k m d j, str_eq_iff i k, str_eq_iff j k, str_eq_iff j i)

-- Each of the shapes is there.
abbrev pub covers : List (String × Measured) → List String → Bool
covers d shapes = all (λ s. has (timed_shapes d) s) shapes

covers-set :
    (k : String) (m : Measured) (d : List (String × Measured)) (seen : List String)
    → covers d seen ≡ true
    → covers (set k m d) seen ≡ true
covers-set k m d [] h = refl
covers-set k m d (s ∷ seen) h = ground (arith, h, timed_shapes-set k m d s, covers-set k m d seen)

-- A shape that was timed is as `P` says.
AsSaid : (String × Measured → Type 0) → String → Option Measured → Type 0
AsSaid P shape none = Unit {0}
AsSaid P shape (some m) = P (shape, m)

module _ (P : String × Measured → Type 0) (shape : String) where
  ended-AsSaid :
      (b : Bool) (x : Raised) (o : Option Measured)
      → (if b then ok none else err x) ≡ ok o
      → AsSaid P shape o
  unfolding AsSaid
  ended-AsSaid true x none e = tt
  ended-AsSaid true x (some m) e = cc
  ended-AsSaid false x o e = cc

  caught-AsSaid :
      (r : Result Measured)
      → ((m : Measured) → r ≡ ok m → P (shape, m))
      → (o : Option Measured) → caught shape r ≡ ok o
      → AsSaid P shape o
  unfolding AsSaid
  caught-AsSaid (ok m) h o e = subst (AsSaid P shape) (ok-injective e) (h m refl)
  caught-AsSaid (err (refusal s)) h o e = subst (AsSaid P shape) (ok-injective e) tt
  caught-AsSaid (err (error x)) h o e = ended-AsSaid (is_exception x.class) (error x) o e

Ensures-option :
    {W A B : Type 0} {P : B → Type 0} (Q : Option A → Type 0) (o : Option A) {m : Exec W B}
    {f : A → Exec W B}
    → Q o
    → (Q none → Ensures P m)
    → ((a : A) → Q (some a) → Ensures P (f a))
    → Ensures P (elim o [ none ↦ m | some a ↦ f a ])
Ensures-option Q none q h k = h q
Ensures-option Q (some a) q h k = k a q

evidence-conclude :
    (done : List (String × Measured)) (floors : List Fraction)
    → (conclude done floors).evidence ≡ done
unfolding conclude
evidence-conclude [] floors = refl
evidence-conclude (s ∷ ss) floors = elim (Bool-cases (is_one (worst_of s ss).1.speedup)) [
  | inl e ↦ rw e refl
  | inr e ↦ rw e refl
]

module _ (choose : ℕ → ℕ → ℕ → ℕ) (draws : ℕ) {W Probe : Type 0}
    (draw_probe : String → ℕ → Exec W Probe) (reference candidate : Probe → Exec W Cost)
    (samples warmups : ℕ) where
  -- The bounds of a shape are concluded from the ratios of as many samples, and from those of the
  -- reference against itself, which were timed right after them.
  pub record WasTimed (s : String × Measured) : Type 0 where
    pub ratios : List Fraction
    pub self_ratios : List Fraction
    pub at_ratios : W
    pub at_self_ratios : W
    pub at_end : W
    pub were_timed :
        paired_ratios draw_probe reference candidate s.0 warmups 0 samples at_ratios
        ≡ (ok ratios, at_self_ratios)
    pub were_self_timed :
        paired_ratios draw_probe reference reference s.0 warmups 0 samples at_self_ratios
        ≡ (ok self_ratios, at_end)
    pub concluded : s.1 ≡ conclude_shape choose draws ratios self_ratios

  -- What a result reports of the shapes.
  pub record Reports (shapes : List String) (r : SpeedResult) : Type 0 where
    pub established : is_established r ≡ true
    pub covered : (not r.usable || covers r.evidence shapes) ≡ true
    pub timed : All WasTimed r.evidence

  module _ (in_range : (i j n : ℕ) → 0 < n → choose i j n < n) (some_draws : 0 < draws) where
    abbrev Known : String × Measured → Type 0
    Known s = Fair s × WasTimed s

    measure_shape-Known :
        (shape : String) (w : W) (m : Measured)
        → 0 < samples
        → (measure_shape choose draws draw_probe reference candidate samples warmups shape w).0
          ≡ ok m
        → Known (shape, m)
    unfolding measure_shape
    measure_shape-Known shape w m s e =
        let (warm, w1, c1, e1) =
          >>=-eq-ok (paired_ratios draw_probe reference candidate shape 0 0 warmups) _ w m e in
        let (ratios, w2, c2, e2) =
          >>=-eq-ok (paired_ratios draw_probe reference candidate shape warmups 0 samples) _ w1 m
            e1 in
        let (self_ratios, w3, c3, e3) =
          >>=-eq-ok (paired_ratios draw_probe reference reference shape warmups 0 samples) _ w2 m
            e2 in
        let (size, positive) =
          (paired_ratios-Positive draw_probe reference candidate shape warmups 0 samples).at w1
            ratios (ap (λ x. x.0) c2) in
        subst (λ x. Known (shape, x)) (ok-injective e3)
          (
            conclude_shape-Fair choose draws in_range some_draws shape ratios self_ratios
                (omega (arith, size, s)) positive,
            record {
              ratios = ratios;
              self_ratios = self_ratios;
              at_ratios = w1;
              at_self_ratios = w2;
              at_end = w3;
              were_timed = c2;
              were_self_timed = c3;
              concluded = refl;
            },
          )

    try_shape-Known :
        (shape : String)
        → 0 < samples
        → Ensures
            (AsSaid Known shape)
            (try_shape choose draws draw_probe reference candidate samples warmups shape)
    try_shape-Known shape s = record {
      at = λ w o e.
          let m = measure_shape choose draws draw_probe reference candidate samples warmups shape in
          caught-AsSaid Known shape (m w).0 (λ x k. measure_shape-Known shape w x s k) o e;
    }

    measure_shapes-Reports :
        (shapes seen : List String) (done : List (String × Measured)) (floors : List Fraction)
        → 0 < samples
        → All Known done
        → covers done seen ≡ true
        → Ensures
            (λ r.
              (is_established r ≡ true)
              × ((not r.usable || (covers r.evidence seen && covers r.evidence shapes)) ≡ true)
              × All WasTimed r.evidence)
            (measure_shapes choose draws draw_probe reference candidate samples warmups shapes done
              floors)
    unfolding measure_shapes AsSaid
    measure_shapes-Reports [] seen done floors s h c =
        let same = evidence-conclude done floors in
        Ensures-pure (conclude done floors) (
          conclude-is_established done floors (All-weaken Known Fair done (λ x k. k.0) h),
          rw same (ground (arith, c)),
          rw same (All-weaken Known WasTimed done (λ x k. k.1) h),
        )
    measure_shapes-Reports (shape ∷ shapes) seen done floors s h c =
        Ensures-bind (try_shape choose draws draw_probe reference candidate samples warmups shape) _
          (try_shape-Known shape s)
          λ o q.
            Ensures-option (AsSaid Known shape) o q
              (λ _.
                Ensures-pure (no_result done (fmt "timing failed on %r" (str shape ∷ [])))
                  (refl, refl, All-weaken Known WasTimed done (λ x k. k.1) h))
              λ m f.
                Ensures-map
                  (measure_shapes-Reports shapes (shape ∷ seen) (set shape m done)
                    (floors ++ m.noise_floor ∷ []) s (All-set Known shape m done f h)
                    (ground (
                      arith,
                      covers-set shape m done seen c,
                      timed_shapes-set shape m done shape,
                      str_eq_iff shape shape,
                    )))
                  λ r k. (k.0, ground (arith, k.1), k.2)

    -- If the pseudorandom choices are in range and at least one draw is made, then whatever the
    -- stopwatches answer: every bound in the evidence is concluded from the ratios that were timed
    -- on its shape; a usable result has every shape that was given in its evidence; a usable speedup
    -- above one is reported only if on every one of them the lower bound is above the noise floor,
    -- one below one only if on some the upper bound is below one over the noise floor, and every
    -- other usable result is marked as within noise.
    pub measure-Reports :
        (shapes : List String)
        → Ensures
            (Reports shapes)
            (measure choose draws draw_probe reference candidate shapes samples warmups)
    unfolding measure
    measure-Reports shapes =
        Ensures-if (is_nil shapes)
          (λ _.
            Ensures-pure (no_result [] (lit "no shape was given to time"))
              (record { established = refl; covered = refl; timed = tt }))
          λ _.
            Ensures-if (ltb samples 2) (λ _. Ensures-lift (err _) λ r e. cc)
              λ k.
                Ensures-map (measure_shapes-Reports shapes [] [] [] (ground (arith, k)) tt refl)
                  λ r h. record { established = h.0; covered = ground (arith, h.1); timed = h.2 }
