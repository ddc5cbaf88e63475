-- ===== src/Roll/Ends.antt =====
-- That a roll ends, over a source that is not endless.
use frontier_refactor_factor.Prelude.{
  ℕ, zero, suc, ◌+◌, ◌-◌, ◌<◌, ◌≡◌, refl, ◌∙◌, String, Bool, true, false, not, ◌&&◌, ◌||◌, List, [],
  ◌∷◌, arith, ltb, leb, length, select, all, count-le-length, ◌*◌,
}
use frontier_refactor_factor.Exec.{Exec}
use frontier_refactor_factor.Exec.Ensures.{
  Ensures, Ensures-pure, Ensures-bind, Ensures-map, Ensures-if,
}
use frontier_refactor_factor.Pipeline.Spec.{Candidate}
use frontier_refactor_factor.Diversity.{DiversityPolicy}
use frontier_refactor_factor.Roll.{
  Roll, Rolled, target_or_limit, source_spent, out_of_fuel, sum, at_most, at_least, attempt_limit,
  new_roll, is_seen, fill_wave, run_wave, try_wave, take_batch, roll_on, roll,
}
use frontier_refactor_factor.Roll.Seen.{
  has, count-drop, unseen_in, fill_wave-Sees, fill_wave-first, count_run-seen,
}

-- A roll that did not run out of fuel.
abbrev pub has_ended : Rolled → Bool
has_ended x = elim x.ending [ target_or_limit ↦ true | source_spent ↦ true | out_of_fuel ↦ false ]

-- The identities of a batch are in the supply.
abbrev pub is_supplied : List String → List Candidate → Bool
is_supplied supply cs = all (λ c. has supply c.identity) cs

all-select :
    {A : Type 0} (p q : A → Bool) (xs : List A)
    → all p xs ≡ true
    → all (λ x. p x && q x) (select q xs) ≡ true
all-select p q [] h = refl
all-select p q (x ∷ xs) h = ground (arith, h, all-select p q xs)

asked-less :
    (b : Bool) (u q limit n k : ℕ)
    → u + (limit - q) < n + 1
    → (b || leb limit q) ≡ false
    → u + (limit - at_most limit (q + at_least 4 k)) < n
asked-less b u q limit n k l e = ground (arith, l, e)

some_room :
    (r : Roll) (target limit : ℕ)
    → (ltb (sum r.reports) target && ltb r.attempted limit) ≡ true
    → 0 < at_most (target - sum r.reports) (limit - r.attempted)
some_room r target limit o = ground (arith, o)

-- Where a new identity of the supply is seen, fewer are left.
seen-less :
    (supply before after : List String) (x : String)
    → ((y : String) → (not (has before y) || has after y) ≡ true)
    → has supply x && not (has before x) ≡ true
    → has after x ≡ true
    → unseen_in supply after < unseen_in supply before
seen-less supply before after x m h k =
    count-drop (λ y. not (has before y)) (λ y. not (has after y)) x supply
      (λ y. ground (arith, m y)) (ground (arith, h)) (ground (arith, k)) (ground (arith, h))

module _ {W : Type 0} (find : ℕ → Exec W (List Candidate)) (run : Candidate → Exec W ℕ)
    (supply : List String)
    (supplied : (n : ℕ) → Ensures (λ batch. is_supplied supply batch ≡ true) (find n))
    (target limit : ℕ) where
  -- What is left to see and to ask for.
  abbrev left_of : Roll → ℕ
  left_of r = unseen_in supply r.seen + (limit - r.requested)

  abbrev Halts : Exec W Rolled → Type 0
  Halts m = Ensures (λ x. has_ended x ≡ true) m

  abbrev HaltsBelow : ℕ → (Roll → Exec W Rolled) → Type 0
  HaltsBelow n again = (s : Roll) → left_of s < n → Halts (again s)

  run_wave-seen :
      (cs : List Candidate) (r : Roll)
      → Ensures
          (λ s. (s.seen ≡ r.seen) × (s.requested ≡ r.requested))
          (run_wave find run target limit cs r)
  unfolding run_wave
  run_wave-seen [] r = Ensures-pure r (refl, refl)
  run_wave-seen (c ∷ cs) r =
      Ensures-bind {Q = λ s. (s.seen ≡ r.seen) × (s.requested ≡ r.requested)} _ _
        (record { at = λ w s e. count_run-seen r s (run c w).0 e })
        λ s h. Ensures-map (run_wave-seen cs s) λ t k. (k.0 ∙ h.0, k.1 ∙ h.1)

  try_wave-Halts :
      (n : ℕ) (again : Roll → Exec W Rolled) (wave : List Candidate) (r : Roll)
      → HaltsBelow n again
      → left_of r < n
      → Halts (try_wave find run target limit again (wave, r))
  unfolding try_wave
  try_wave-Halts n again [] r h l = h r l
  try_wave-Halts n again (c ∷ cs) r h l =
      Ensures-bind (run_wave find run target limit (c ∷ cs) _) _
        (run_wave-seen (c ∷ cs) (record r { attempted = r.attempted + length (c ∷ cs) }))
        λ s k. h s (rw k.0 (rw k.1 l))

  take_batch-Halts :
      (n : ℕ) (again : Roll → Exec W Rolled) (r : Roll) (batch unseen : List Candidate)
      → HaltsBelow n again
      → left_of r < n + 1
      → ltb (sum r.reports) target && ltb r.attempted limit ≡ true
      → all (λ c. has supply c.identity && not (has r.seen c.identity)) unseen ≡ true
      → Halts (take_batch find run target limit again r batch unseen)
  unfolding take_batch
  take_batch-Halts n again r batch [] h l o u =
      Ensures-if (ltb (length batch) r.requested || leb limit r.requested)
        (λ e. Ensures-pure _ refl)
        λ e.
          h (record r { requested = at_most limit (r.requested + at_least 4 (target * 2)) })
            (asked-less (ltb (length batch) r.requested) (unseen_in supply r.seen) r.requested limit
              n (target * 2) l e)
  take_batch-Halts n again r batch (c ∷ cs) h l o u =
      let room = at_most (target - sum r.reports) (limit - r.attempted) in
      let filled = fill_wave room (c ∷ cs) r in
      let (sees, asked) = fill_wave-Sees room (c ∷ cs) r in
      let less =
        seen-less supply r.seen filled.1.seen c.identity sees (ground (arith, u))
          (fill_wave-first room c cs r (some_room r target limit o)) in
      try_wave-Halts n again filled.0 filled.1 h (rw asked (omega (arith, l, less)))

  roll_on-Halts :
      (fuel : ℕ) (r : Roll) → left_of r < fuel → Halts (roll_on find run target limit fuel r)
  unfolding roll_on
  roll_on-Halts zero r l = elim l [ ]
  roll_on-Halts (suc fuel) r l =
      Ensures-if (ltb (sum r.reports) target && ltb r.attempted limit)
        (λ e. Ensures-bind (find r.requested) _ (supplied r.requested) λ batch b.
          take_batch-Halts fuel (roll_on find run target limit fuel) r batch
            (select (λ c. not (is_seen r.seen c)) batch) (roll_on-Halts fuel) (omega (arith, l)) e
            (all-select (λ c. has supply c.identity) (λ c. not (is_seen r.seen c)) batch b))
        λ e. Ensures-pure _ refl

-- A roll ends by itself, whatever its runs do and however low their yield, where all that the
-- source ever finds is in a finite supply: with one round more than the supply and the limit
-- together, it does not run out of fuel.
pub roll_ends :
    {W : Type 0} (find : ℕ → Exec W (List Candidate)) (run : Candidate → Exec W ℕ)
    (supply : List String) (target max_attempts : ℕ) (policy : DiversityPolicy)
    → ((n : ℕ) → Ensures (λ batch. is_supplied supply batch ≡ true) (find n))
    → Ensures
        (λ x. has_ended x ≡ true)
        (roll find run
          (length supply + attempt_limit target max_attempts + 1)
          target
          max_attempts
          policy)
unfolding roll new_roll
roll_ends find run supply target max_attempts policy supplied =
    roll_on-Halts find run supply supplied target (attempt_limit target max_attempts)
      (length supply + attempt_limit target max_attempts + 1) (new_roll target max_attempts policy)
      (omega (arith, count-le-length (λ s. not (has [] s)) supply))
