-- ===== src/Roll/Laws.antt =====
-- What a roll counts, and that it keeps within its bounds.
use frontier_refactor_factor.Prelude.{
  ℕ, zero, suc, ◌+◌, ◌-◌, ◌≤◌, ◌≡◌, refl, sym, ◌∙◌, subst, Bool, true, false, not, ◌&&◌, ◌||◌, List,
  [], ◌∷◌, arith, ltb, leb, if◌then◌else◌, length, select,
}
use frontier_refactor_factor.Exec.{Exec, Result, ok, err, refusal, error, is_exception}
use frontier_refactor_factor.Exec.Ensures.{
  Ensures, Ensures-pure, Ensures-bind, Ensures-skip, Ensures-map, Ensures-if, ok-injective,
}
use frontier_refactor_factor.Pipeline.Spec.{Candidate}
use frontier_refactor_factor.Diversity.{DiversityPolicy, accept}
use frontier_refactor_factor.Roll.{
  Roll, Rolled, target_or_limit, source_spent, out_of_fuel, sum, at_most, attempt_limit, new_roll,
  is_seen, fill_wave, count_run, run_wave, try_wave, take_batch, roll_on, roll,
}

-- The counts that filling a wave does not touch.
abbrev SameCounts : Roll → Roll → Type 0
SameCounts r s =
    (s.reports ≡ r.reports)
    × (s.infrastructure_failures ≡ r.infrastructure_failures)
    × (s.requested ≡ r.requested)
    × (s.attempted ≡ r.attempted)

fill_wave_lem :
    (room : ℕ) (cs : List Candidate) (r : Roll)
    → (length (fill_wave room cs r).0 ≤ room) × SameCounts r (fill_wave room cs r).1
unfolding fill_wave
fill_wave_lem zero cs r = (omega arith, (refl, refl, refl, refl))
fill_wave_lem (suc room) [] r = (omega arith, (refl, refl, refl, refl))
fill_wave_lem (suc room) (c ∷ cs) r =
    let noted : Roll = record r {
      seen = c.identity ∷ r.seen;
      diversity = (accept r.diversity c.identity).1;
    } in
    let (short, kept) = fill_wave_lem room cs noted in
    let (short', kept') = fill_wave_lem (suc room) cs noted in
    elim (accept r.diversity c.identity).0
      as (λ b.
        let both =
          if b
          then (c ∷ (fill_wave room cs noted).0, (fill_wave room cs noted).1)
          else fill_wave (suc room) cs noted in
        (length both.0 ≤ suc room) × SameCounts r both.1) [
          | true ↦ (omega (arith, short), kept)
          | false ↦ (short', kept')
        ]

-- What the runs of a wave of `n` candidates add.
abbrev Adds : ℕ → Roll → Roll → Type 0
Adds n r s =
    (sum s.reports ≤ sum r.reports + n)
    × (length s.reports + s.infrastructure_failures
        ≡ length r.reports + r.infrastructure_failures + n)
    × (s.requested ≡ r.requested)
    × (s.attempted ≡ r.attempted)

count_run-at :
    (r s : Roll) (answer : Result ℕ)
    → ((n : ℕ) → answer ≡ ok n → n ≤ 1)
    → count_run r answer ≡ ok s
    → Adds 1 r s
unfolding count_run
count_run-at r s (ok n) h e =
    subst (Adds 1 r) (ok-injective e) (omega (arith, h n refl), omega arith, refl, refl)
count_run-at r s (err (refusal x)) h e =
    subst (Adds 1 r) (ok-injective e) (omega arith, omega arith, refl, refl)
count_run-at r s (err (error x)) h e =
    elim (is_exception x.class)
        as (λ b.
          (if b
              then ok (record r { infrastructure_failures = r.infrastructure_failures + 1 })
              else err (error x))
            ≡ ok s
          → Adds 1 r s) [
            | true ↦ λ p. subst (Adds 1 r) (ok-injective p) (omega arith, omega arith, refl, refl)
            | false ↦ λ p. cc
          ]
      e

module _ {W : Type 0} (find : ℕ → Exec W (List Candidate)) (run : Candidate → Exec W ℕ)
    (one_task : (c : Candidate) → Ensures (λ n. n ≤ 1) (run c)) (target limit : ℕ) where
  run_wave-Adds :
      (cs : List Candidate) (r : Roll)
      → Ensures (Adds (length cs) r) (run_wave find run target limit cs r)
  unfolding run_wave
  run_wave-Adds [] r = Ensures-pure r (omega arith, omega arith, refl, refl)
  run_wave-Adds (c ∷ cs) r =
      Ensures-bind {Q = Adds 1 r} _ _
        (record { at = λ w s e. count_run-at r s (run c w).0 ((one_task c).at w) e })
        λ s h.
          Ensures-map (run_wave-Adds cs s)
            λ t k. (omega (arith, h.0, k.0), omega (arith, h.1, k.1), k.2 ∙ h.2, k.3 ∙ h.3)

-- No more tasks than asked for, no more attempts than allowed, and every attempt reported or lost.
abbrev pub Keeps : ℕ → ℕ → Roll → Type 0
Keeps target limit r =
    (sum r.reports ≤ target)
    × (r.attempted ≤ limit)
    × (length r.reports + r.infrastructure_failures ≡ r.attempted)

-- A roll that ended for its target or its limit has met the one or reached the other.
abbrev pub has_reason : ℕ → ℕ → Rolled → Bool
has_reason target limit x = elim x.ending [
  | target_or_limit ↦ leb target (sum x.state.reports) || leb limit x.state.attempted
  | source_spent ↦ true
  | out_of_fuel ↦ true
]

module _ {W : Type 0} (find : ℕ → Exec W (List Candidate)) (run : Candidate → Exec W ℕ)
    (one_task : (c : Candidate) → Ensures (λ n. n ≤ 1) (run c)) (target limit : ℕ) where
  abbrev pub EndsWell : Exec W Rolled → Type 0
  EndsWell m = Ensures (λ x. Keeps target limit x.state × (has_reason target limit x ≡ true)) m

  abbrev AllEndWell : (Roll → Exec W Rolled) → Type 0
  AllEndWell again = (s : Roll) → Keeps target limit s → EndsWell (again s)

  try_wave-EndsWell :
      (again : Roll → Exec W Rolled) (wave : List Candidate) (r : Roll)
      → AllEndWell again
      → Keeps target limit r
      → sum r.reports + length wave ≤ target
      → r.attempted + length wave ≤ limit
      → EndsWell (try_wave find run target limit again (wave, r))
  unfolding try_wave
  try_wave-EndsWell again [] r h k t l = h r k
  try_wave-EndsWell again (c ∷ cs) r h k t l =
      Ensures-bind (run_wave find run target limit (c ∷ cs) _) _
        (run_wave-Adds find run one_task target limit (c ∷ cs)
          (record r { attempted = r.attempted + length (c ∷ cs) }))
        λ s a. h s (omega (arith, a.0, t), omega (arith, a.3, l), omega (arith, a.1, a.3, k.2))

  room-within :
      (r : Roll) (n : ℕ)
      → Keeps target limit r
      → n ≤ at_most (target - sum r.reports) (limit - r.attempted)
      → (sum r.reports + n ≤ target) × (r.attempted + n ≤ limit)
  room-within r n k h = (ground (arith, k.0, h), ground (arith, k.1, h))

  filled-Keeps : (r s : Roll) → SameCounts r s → Keeps target limit r → Keeps target limit s
  filled-Keeps r s (reports, infra, asked, tried) (t, l, a) =
      (rw reports t, rw tried l, rw reports (rw infra (rw tried a)))

  take_batch-EndsWell :
      (again : Roll → Exec W Rolled) (r : Roll) (batch unseen : List Candidate)
      → AllEndWell again
      → Keeps target limit r
      → EndsWell (take_batch find run target limit again r batch unseen)
  unfolding take_batch
  take_batch-EndsWell again r batch [] h k =
      Ensures-if (ltb (length batch) r.requested || leb limit r.requested)
        (λ e. Ensures-pure _ (k, refl)) λ e. h _ k
  take_batch-EndsWell again r batch (c ∷ cs) h k =
      let room = at_most (target - sum r.reports) (limit - r.attempted) in
      let (short, same) = fill_wave_lem room (c ∷ cs) r in
      let filled = fill_wave room (c ∷ cs) r in
      let within = room-within r (length filled.0) k short in
      try_wave-EndsWell again filled.0 filled.1 h (filled-Keeps r filled.1 same k)
        (subst (λ n. sum n + length filled.0 ≤ target) (sym same.0) within.0)
        (subst (λ n. n + length filled.0 ≤ limit) (sym same.3) within.1)

  roll_on-EndsWell :
      (fuel : ℕ) (r : Roll) → Keeps target limit r → EndsWell (roll_on find run target limit fuel r)
  unfolding roll_on
  roll_on-EndsWell zero r k = Ensures-pure _ (k, refl)
  roll_on-EndsWell (suc fuel) r k =
      Ensures-if (ltb (sum r.reports) target && ltb r.attempted limit)
        (λ e. Ensures-skip (find r.requested) _ λ batch.
          take_batch-EndsWell (roll_on find run target limit fuel) r batch
            (select (λ c. not (is_seen r.seen c)) batch) (roll_on-EndsWell fuel) k)
        λ e. Ensures-pure _ (k, ground (arith, e))

-- Where the run of one candidate emits one task at most, and whatever else it and the source do: a
-- roll emits no more tasks than it was asked for and attempts no more candidates than its limit,
-- every attempt is a report or a failure of the infrastructure, and where it ends for one of the
-- two, it has met its target or reached its limit.
pub roll-Keeps :
    {W : Type 0} (find : ℕ → Exec W (List Candidate)) (run : Candidate → Exec W ℕ)
    (fuel target max_attempts : ℕ) (policy : DiversityPolicy)
    → ((c : Candidate) → Ensures (λ n. n ≤ 1) (run c))
    → Ensures
        (λ x.
          Keeps target (attempt_limit target max_attempts) x.state
          × (has_reason target (attempt_limit target max_attempts) x ≡ true))
        (roll find run fuel target max_attempts policy)
unfolding roll new_roll
roll-Keeps find run fuel target max_attempts policy one_task =
    roll_on-EndsWell find run one_task target (attempt_limit target max_attempts) fuel
      (new_roll target max_attempts policy) (omega arith, omega arith, omega arith)
