-- ===== src/Roll.antt =====
-- The roll of frf/automation.py: `run` when it is asked for a number of emitted tasks. Candidates are
-- sourced in waves until enough tasks are out, the attempts are spent, or the source is. The
-- source, and the run of one candidate, which answers how many tasks it emitted, are arguments;
-- the runs of a wave are taken in the order of the wave.
pub mod Laws
pub mod Seen
pub mod Ends
mod Tests
use frontier_refactor_factor.Prelude.{
  ℕ, zero, suc, ◌+◌, ◌-◌, ◌*◌, String, Bool, true, false, not, ◌&&◌, ◌||◌, List, [], ◌∷◌, ltb, leb,
  ◌==◌, if◌then◌else◌, length, select, any, is_nil, str_eq,
}
use frontier_refactor_factor.Exec.{Exec, Result, ok, err, refusal, error, is_exception, pure, ◌>>=◌}
use frontier_refactor_factor.Pipeline.Spec.{Candidate}
use frontier_refactor_factor.Diversity.{DiversityPolicy, accept}

abbrev pub at_most : ℕ → ℕ → ℕ
at_most a b = if leb a b then a else b

abbrev pub at_least : ℕ → ℕ → ℕ
at_least a b = if leb a b then b else a

-- `sum(r.summary.get("emitted", 0) for r in reports)`
abbrev pub sum : List ℕ → ℕ
sum [] = 0
sum (n ∷ ns) = n + sum ns

-- The local variables of the loop. A report is the number of tasks that it says were emitted.
pub record Roll : Type 0 where
  pub reports : List ℕ
  pub seen : List String
  pub infrastructure_failures : ℕ
  pub requested : ℕ
  pub attempted : ℕ
  pub diversity : DiversityPolicy

-- `max_attempts or max(target, target * 10)`
unfoldable pub attempt_limit : ℕ → ℕ → ℕ
attempt_limit target max_attempts =
    if max_attempts == 0 then at_least target (target * 10) else max_attempts

unfoldable pub new_roll : ℕ → ℕ → DiversityPolicy → Roll
unfolding attempt_limit
new_roll target max_attempts policy = record {
  reports = [];
  seen = [];
  infrastructure_failures = 0;
  requested = at_most (attempt_limit target max_attempts) (at_least 4 target);
  attempted = 0;
  diversity = policy;
}

abbrev pub is_seen : List String → Candidate → Bool
is_seen seen c = any (λ s. str_eq s c.identity) seen

-- `for candidate in unseen`, with room for so many more in the wave.
unfoldable pub fill_wave : ℕ → List Candidate → Roll → List Candidate × Roll
unfolding accept
fill_wave zero cs r = ([], r)
fill_wave (suc room) [] r = ([], r)
fill_wave (suc room) (c ∷ cs) r =
    let (taken, policy) = accept r.diversity c.identity in
    let noted : Roll = record r { seen = c.identity ∷ r.seen; diversity = policy } in
    let (wave, filled) = fill_wave room cs noted in
    let skipped = fill_wave (suc room) cs noted in if taken then (c ∷ wave, filled) else skipped

-- Why the loop ended. With no fuel left it has not ended.
pub data Ending : Type 0 where
  target_or_limit source_spent out_of_fuel : Ending

pub record Rolled : Type 0 where
  pub ending : Ending
  pub state : Roll

-- A run that raises an `Exception` is a failure of the infrastructure.
unfoldable pub count_run : Roll → Result ℕ → Result Roll
count_run r (ok n) = ok (record r { reports = n ∷ r.reports })
count_run r (err (refusal s)) =
    ok (record r { infrastructure_failures = r.infrastructure_failures + 1 })
count_run r (err (error e)) =
    if is_exception e.class
    then ok (record r { infrastructure_failures = r.infrastructure_failures + 1 })
    else err (error e)

module _ {W : Type 0} (find : ℕ → Exec W (List Candidate)) (run : Candidate → Exec W ℕ)
    (target limit : ℕ) where
  unfoldable pub run_wave : List Candidate → Roll → Exec W Roll
  unfolding count_run
  run_wave [] r = pure r
  run_wave (c ∷ cs) r = do
    next ← (λ w. let (answer, w') = run c w in (count_run r answer, w'))
    run_wave cs next

  -- The wave is run, unless it is empty.
  unfoldable pub try_wave : (Roll → Exec W Rolled) → List Candidate × Roll → Exec W Rolled
  unfolding run_wave
  try_wave again ([], r) = again r
  try_wave again (c ∷ cs, r) = do
    done ← run_wave (c ∷ cs) (record r { attempted = r.attempted + length (c ∷ cs) })
    again done

  -- One round, on the batch that was found, and what of it is unseen.
  unfoldable pub take_batch :
      (Roll → Exec W Rolled) → Roll → List Candidate → List Candidate → Exec W Rolled
  unfolding try_wave fill_wave
  take_batch again r batch [] =
      if ltb (length batch) r.requested || leb limit r.requested
      then pure (record { ending = source_spent; state = r })
      else again (record r { requested = at_most limit (r.requested + at_least 4 (target * 2)) })
  take_batch again r batch (c ∷ cs) =
      try_wave again (fill_wave (at_most (target - sum r.reports) (limit - r.attempted)) (c ∷ cs) r)

  -- `while emitted < target and attempted < attempt_limit`, on fuel for its rounds.
  unfoldable pub roll_on : ℕ → Roll → Exec W Rolled
  unfolding take_batch
  roll_on zero r = pure (record { ending = out_of_fuel; state = r })
  roll_on (suc fuel) r =
      let round = (do
        batch ← find r.requested
        take_batch (roll_on fuel) r batch (select (λ c. not (is_seen r.seen c)) batch)) in
      if ltb (sum r.reports) target && ltb r.attempted limit
      then round
      else pure (record { ending = target_or_limit; state = r })

module _ {W : Type 0} (find : ℕ → Exec W (List Candidate)) (run : Candidate → Exec W ℕ) where
  unfoldable pub roll : ℕ → ℕ → ℕ → DiversityPolicy → Exec W Rolled
  unfolding roll_on new_roll attempt_limit
  roll fuel target max_attempts policy =
      roll_on find run target (attempt_limit target max_attempts) fuel
        (new_roll target max_attempts policy)
