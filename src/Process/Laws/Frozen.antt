-- ===== src/Process/Laws/Frozen.antt =====
-- What one scenario of the freeze keeps true of what the loop has gathered.
use frontier_refactor_factor.Prelude.{
  ℕ, suc, ◌&&◌, ◌≡◌, refl, subst, String, Bool, true, false, ◌||◌, Option, none, some, List, [],
  ◌∷◌, if◌then◌else◌, arith, map, length, set, has, All, eq_string, unique, str_eq, str_eq_iff,
  Bool-cases, inl, inr, Message,
}
use frontier_refactor_factor.Exec.{ok}
use frontier_refactor_factor.Exec.Ensures.{ok-injective}
use frontier_refactor_factor.Process.{Observation, Expectation, froze_work}
use frontier_refactor_factor.Process.Corpus.{Scenario}
use frontier_refactor_factor.Process.Tally.{
  Tallied, names, has_points, never_found, keep_scenario, tally_scenario, freeze_steps, index_error,
  ◌>>=◌ as then_some,
}

abbrev Rules : Type 0
Rules = List (String × List Expectation)

names-set :
    (k : String) (a : List Expectation) (d : Rules) (j : String)
    → has (names (set k a d)) j ≡ (str_eq j k || has (names d) j)
names-set k a [] j = ground arith
names-set k a ((m, b) ∷ d) j =
    ground (arith, names-set k a d j, str_eq_iff m k, str_eq_iff j k, str_eq_iff j m)

unique-set :
    (k : String) (a : List Expectation) (d : Rules)
    → unique (names d) ≡ true
    → unique (names (set k a d)) ≡ true
unique-set k a [] u = refl
unique-set k a ((m, b) ∷ d) u =
    ground (arith, u, names-set k a d m, unique-set k a d, str_eq_iff m k)

All-set :
    (P : String × List Expectation → Type 0) (k : String) (a : List Expectation) (d : Rules)
    → has (names d) k ≡ false
    → All P d
    → P (k, a)
    → All P (set k a d)
All-set P k a [] f h p = (p, tt)
All-set P k a ((m, b) ∷ d) f (h, hs) p =
    let n : str_eq m k ≡ false = ground (arith, f, str_eq_iff m k, str_eq_iff k m) in
    rw n (h, All-set P k a d (ground (arith, f)) hs p)

-- What holds of entries under other names.
All-others :
    (P Q : String × List Expectation → Type 0) (k : String) (d : Rules)
    → has (names d) k ≡ false
    → ((m : String) (b : List Expectation) → str_eq m k ≡ false → P (m, b) → Q (m, b))
    → All P d
    → All Q d
All-others P Q k [] f g h = tt
All-others P Q k ((m, b) ∷ d) f g (h, hs) = (
  g m b (ground (arith, f, str_eq_iff m k, str_eq_iff k m)) h,
  All-others P Q k d (ground (arith, f)) g hs,
)

module _ (sha : String → String) where
  -- Scenarios that were credited with work show it in what was frozen of them.
  abbrev pub Credited : List String → String × List Expectation → Type 0
  Credited worked (pid, steps) = has worked pid ≡ true → froze_work sha steps ≡ true

  abbrev pub Pointed : String × List Expectation → Type 0
  Pointed (pid, steps) = has_points steps ≡ true

  -- `rest` are the scenarios that are still to be run.
  pub record Sane (rest : List String) (t : Tallied) : Type 0 where
    pub points : All Pointed t.frozen
    pub work : All (Credited t.worked) t.frozen
    pub known : (k : String) → has t.worked k ≡ true → has (names t.frozen) k ≡ true
    pub fresh : (k : String) → has (names t.frozen) k ≡ true → has rest k ≡ false
    pub once : unique (names t.frozen) ≡ true

  Sane-skip :
      (pid : String) (rest : List String) (t : Tallied)
      → Sane (pid ∷ rest) t
      → Sane rest (record t { dropped = suc t.dropped })
  Sane-skip pid rest t s = record {
    points = s.points;
    work = s.work;
    known = s.known;
    fresh = λ k m. ground (arith, s.fresh k m);
    once = s.once;
  }

  credited :
      (pid : String) (rest : List String) (steps : List Expectation) (t : Tallied) (b : Bool)
      → froze_work sha steps ≡ b
      → has (names t.frozen) pid ≡ false
      → Sane (pid ∷ rest) t
      → All (Credited (if b then pid ∷ t.worked else t.worked)) (set pid steps t.frozen)
  credited pid rest steps t true w new s =
      All-set (Credited (pid ∷ t.worked)) pid steps t.frozen new
        (All-others (Credited t.worked) (Credited (pid ∷ t.worked)) pid t.frozen new
          (λ m b ne h e. h (ground (arith, e, ne))) s.work)
        (λ _. w)
  credited pid rest steps t false w new s =
      All-set (Credited t.worked) pid steps t.frozen new s.work
        (λ e. ground (arith, s.known pid e, new))

  known_after :
      (k pid : String) (b : Bool) (steps : List Expectation) (t : Tallied)
      → has (if b then pid ∷ t.worked else t.worked) k ≡ true
      → (has t.worked k ≡ true → has (names t.frozen) k ≡ true)
      → has (names (set pid steps t.frozen)) k ≡ true
  known_after k pid true steps t m h = ground (arith, m, h, names-set pid steps t.frozen k)
  known_after k pid false steps t m h = ground (arith, m, h, names-set pid steps t.frozen k)

  kept-Sane :
      (pid : String) (rest : List String) (steps : List Expectation) (t : Tallied) (b : Bool)
      → froze_work sha steps ≡ b
      → has_points steps ≡ true
      → has rest pid ≡ false
      → Sane (pid ∷ rest) t
      → Sane rest (record t {
        frozen = set pid steps t.frozen;
        ever_ran = true;
        worked = (if b then pid ∷ t.worked else t.worked);
      })
  kept-Sane pid rest steps t b w p n s =
      let new : has (names t.frozen) pid ≡ false =
        ground (arith, s.fresh pid, str_eq_iff pid pid) in
      record {
        points = All-set Pointed pid steps t.frozen new s.points p;
        work = credited pid rest steps t b w new s;
        known = λ k m. known_after k pid b steps t m (s.known k);
        fresh = λ k m.
            ground (arith, m, names-set pid steps t.frozen k, n, s.fresh k, str_eq_iff k pid);
        once = unique-set pid steps t.frozen s.once;
      }

  dropped-Sane :
      (pid : String) (rest : List String) (t : Tallied) (n : ℕ) (why : List (Message × ℕ))
      → Sane (pid ∷ rest) t
      → Sane rest (record t { dropped = n; ever_ran = true; why = why })
  dropped-Sane pid rest t n why s = record {
    points = s.points;
    work = s.work;
    known = s.known;
    fresh = λ k m. ground (arith, s.fresh k m);
    once = s.once;
  }

  keep_scenario-Sane :
      (pid : String) (rest : List String) (steps : List Expectation) (t : Tallied)
      → has rest pid ≡ false
      → Sane (pid ∷ rest) t
      → Sane rest (keep_scenario sha pid steps t)
  unfolding keep_scenario
  keep_scenario-Sane pid rest steps t n s = elim (Bool-cases (has_points steps)) [
    | inl p ↦ rw p (kept-Sane pid rest steps t (froze_work sha steps) refl p n s)
    | inr p ↦ rw p (dropped-Sane pid rest t _ _ s)
  ]

  -- A scenario that was run is frozen under its name, or counted as dropped.
  pub record Stepped (pid : String) (t u : Tallied) : Type 0 where
    pub kept : Bool
    pub frozen_names :
        (k : String) → has (names u.frozen) k ≡ ((kept && str_eq k pid) || has (names t.frozen) k)
    pub one_dropped : u.dropped ≡ (if kept then t.dropped else suc t.dropped)

  keep_scenario-Stepped :
      (pid : String) (steps : List Expectation) (t : Tallied)
      → Stepped pid t (keep_scenario sha pid steps t)
  unfolding keep_scenario
  keep_scenario-Stepped pid steps t = elim (Bool-cases (has_points steps)) [
    | inl p ↦
        rw p
          (record { kept = true; frozen_names = names-set pid steps t.frozen; one_dropped = refl })
    | inr p ↦ rw p (record { kept = false; frozen_names = λ k. refl; one_dropped = refl })
  ]

  abbrev pub Next : String → List String → Tallied → Tallied → Type 0
  Next pid rest t u = Sane rest u × Stepped pid t u

  tallied :
      (pid : String) (rest : List String) (t u : Tallied) (b : Bool) (m : Option (List Expectation))
      → has rest pid ≡ false
      → Sane (pid ∷ rest) t
      → (if b
          then ok (record t { dropped = suc t.dropped })
          else index_error (then_some m λ steps. some (keep_scenario sha pid steps t)))
        ≡ ok u
      → Next pid rest t u
  tallied pid rest t u true m n h e = subst (Next pid rest t) (ok-injective e) (
    Sane-skip pid rest t h,
    record { kept = false; frozen_names = λ k. refl; one_dropped = refl },
  )
  tallied pid rest t u false none n h e = cc
  tallied pid rest t u false (some steps) n h e =
      subst (Next pid rest t) (ok-injective e)
        (keep_scenario-Sane pid rest steps t n h, keep_scenario-Stepped pid steps t)

  pub tally_scenario-Next :
      (s : Scenario) (rest : List String) (runs : List (List Observation)) (t u : Tallied)
      → has rest s.probe_id ≡ false
      → Sane (s.probe_id ∷ rest) t
      → tally_scenario sha s runs t ≡ ok u
      → Next s.probe_id rest t u
  unfolding tally_scenario
  tally_scenario-Next s rest runs t u n h e =
      tallied s.probe_id rest t u (never_found runs) (freeze_steps sha 0 (length s.steps) runs) n h
        e

  abbrev pub ids : List Scenario → List String
  ids = map (λ s. s.probe_id)
