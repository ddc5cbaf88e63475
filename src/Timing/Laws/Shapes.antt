-- ===== src/Timing/Laws/Shapes.antt =====
-- What the reported speedup says of the shapes that were timed.
use frontier_refactor_factor.Prelude.{
  ℕ, ◌≡◌, ◌<◌, refl, ap, sym, ◌∙◌, String, Bool, true, false, not, ◌||◌, List, [], ◌∷◌,
  if◌then◌else◌, arith, length, Fraction, is_more, is_more_trans, is_more_up, All, any, all,
  Bool-cases, inl, inr,
}
use frontier_refactor_factor.Timing.{
  one, reciprocal, larger, adjust, Measured, SpeedResult, bootstrap_lower_bound, upper_bound,
  conclude_shape, worst_of, is_one, conclude,
}
use frontier_refactor_factor.Timing.Laws.Positive.{Positive, bootstrap-Positive, upper-Positive}

-- A gain, or a loss, that clears the noise.
abbrev pub gains : String × Measured → Bool
gains (name, m) = is_more m.lower m.noise_floor

abbrev pub loses : String × Measured → Bool
loses (name, m) = is_more (reciprocal m.noise_floor) m.upper

-- A usable gain is reported only if every shape gains, a loss only if some shape loses, and any
-- other result is marked as noise.
abbrev pub is_established : SpeedResult → Bool
is_established r =
    not r.usable
    || (if is_more r.speedup one
        then all gains r.evidence
        else if is_more one r.speedup
        then any loses r.evidence
        else r.within_noise)

pub record Fair (s : String × Measured) : Type 0 where
  pub speedup_pos : Positive s.1.speedup
  pub gain : is_more s.1.speedup one ≡ true → gains s ≡ true
  pub loss : is_more one s.1.speedup ≡ true → loses s ≡ true

more_trans : (a b c : Fraction) → is_more a b ≡ true → is_more b c ≡ true → is_more a c ≡ true
more_trans a b c h k =
    let p =
      is_more_trans b.above b.below a.above a.below c.above c.below (ground (arith, h))
        (ground (arith, k)) in
    ground (arith, p)

larger-above : (a b : Fraction) → is_more one a ≡ false → is_more one (larger a b) ≡ false
larger-above a b h = elim (Bool-cases (is_more b a)) [
  | inl e ↦ rw e (elim (Bool-cases (is_more one b)) [
    | inl k ↦ let q = more_trans one b a k e in cc
    | inr k ↦ k
  ])
  | inr e ↦ rw e h
]

-- Whatever is not less than a ratio above one is above one.
more_up :
    (a b : Fraction)
    → Positive b
    → is_more a b ≡ false
    → is_more a one ≡ true
    → is_more b one ≡ true
more_up a b p h k =
    let q =
      is_more_up b.above b.below a.above a.below 1 1 p.below_pos (ground (arith, h))
        (ground (arith, k)) in
    ground (arith, q)

adjust-Positive :
    (lower upper noise : Fraction)
    → Positive lower
    → Positive upper
    → Positive (adjust lower upper noise)
adjust-Positive lower upper noise p q =
    elim (is_more lower noise)
      as (λ b.
        Positive (if b then lower else if is_more (reciprocal noise) upper then upper else one)) [
          | true ↦ p
          | false ↦
              elim (is_more (reciprocal noise) upper)
                as (λ b. Positive (if b then upper else one)) [
                  | true ↦ q
                  | false ↦ record { above_pos = omega arith; below_pos = omega arith }
                ]
        ]

-- `1 / noise > 1` only for a noise below one
reciprocal-above :
    (noise : Fraction) → is_more one noise ≡ false → is_more (reciprocal noise) one ≡ false
reciprocal-above noise h = ground (arith, h)

adjust-gain :
    (lower upper noise : Fraction)
    → is_more one noise ≡ false
    → is_more (adjust lower upper noise) one ≡ true
    → is_more lower noise ≡ true
adjust-gain lower upper noise o h =
    ground (arith, more_trans (reciprocal noise) upper one, reciprocal-above noise o, o, h)

adjust-loss :
    (lower upper noise : Fraction)
    → is_more one noise ≡ false
    → is_more one (adjust lower upper noise) ≡ true
    → is_more (reciprocal noise) upper ≡ true
adjust-loss lower upper noise o h = ground (arith, more_trans one lower noise, o, h)

module _ (choose : ℕ → ℕ → ℕ → ℕ) (draws : ℕ) (in_range : (i j n : ℕ) → 0 < n → choose i j n < n)
    (some_draws : 0 < draws) where
  pub conclude_shape-Fair :
      (name : String) (ratios self_ratios : List Fraction)
      → 0 < length ratios
      → All Positive ratios
      → Fair (name, conclude_shape choose draws ratios self_ratios)
  unfolding conclude_shape
  conclude_shape-Fair name ratios self_ratios n h =
      let lower = bootstrap_lower_bound choose draws ratios in
      let upper = upper_bound choose draws ratios in
      let self_upper = upper_bound choose draws self_ratios in
      let self_lower = reciprocal (bootstrap_lower_bound choose draws self_ratios) in
      let noise = larger (larger one self_upper) self_lower in
      let above =
        larger-above (larger one self_upper) self_lower (larger-above one self_upper refl) in
      record {
        speedup_pos =
            adjust-Positive lower upper noise
              (bootstrap-Positive choose draws in_range some_draws ratios n h)
              (upper-Positive choose draws in_range some_draws ratios n h);
        gain = adjust-gain lower upper noise above;
        loss = adjust-loss lower upper noise above;
      }

worst-gains :
    (w : String × Measured) (ss : List (String × Measured))
    → Fair w
    → All Fair ss
    → is_more (worst_of w ss).1.speedup one ≡ true
    → (is_more w.1.speedup one ≡ true) × (all gains (w ∷ ss) ≡ true)
worst-gains w [] f h e = (e, ground (arith, f.gain, e))
worst-gains w (s ∷ ss) f (g, h) e =
    let chosen = λ (b : Bool). is_more (worst_of (if b then s else w) ss).1.speedup one in
    elim (Bool-cases (is_more w.1.speedup s.1.speedup)) [
      | inl k ↦
          let (p, q) = worst-gains s ss g h (ap chosen (sym k) ∙ e) in
          let r = more_trans w.1.speedup s.1.speedup one k p in (r, ground (arith, f.gain r, q))
      | inr k ↦
          let (p, q) = worst-gains w ss f h (ap chosen (sym k) ∙ e) in
          let r = more_up w.1.speedup s.1.speedup g.speedup_pos k p in
          (p, ground (arith, g.gain r, q))
    ]

worst-loses :
    (w : String × Measured) (ss : List (String × Measured))
    → Fair w
    → All Fair ss
    → is_more one (worst_of w ss).1.speedup ≡ true
    → any loses (w ∷ ss) ≡ true
worst-loses w [] f h e = ground (arith, f.loss e)
worst-loses w (s ∷ ss) f (g, h) e =
    let chosen = λ (b : Bool). is_more one (worst_of (if b then s else w) ss).1.speedup in
    elim (Bool-cases (is_more w.1.speedup s.1.speedup)) [
      | inl k ↦ ground (arith, worst-loses s ss g h (ap chosen (sym k) ∙ e))
      | inr k ↦ ground (arith, worst-loses w ss f h (ap chosen (sym k) ∙ e))
    ]

pub conclude-is_established :
    (done : List (String × Measured)) (floors : List Fraction)
    → All Fair done
    → is_established (conclude done floors) ≡ true
unfolding conclude
conclude-is_established [] floors h = refl
conclude-is_established (s ∷ ss) floors (f, h) =
    let m = (worst_of s ss).1 in
    elim (Bool-cases (is_one m.speedup)) [
      | inl k ↦ rw k refl
      | inr k ↦ rw k (ground (arith, worst-gains s ss f h, worst-loses s ss f h, k))
    ]
