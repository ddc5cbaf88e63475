-- ===== src/Process/Laws/Sound.antt =====
-- What a corpus is that the freeze calls usable.
use frontier_refactor_factor.Prelude.{
  ℕ, ◌+◌, ◌*◌, ◌||◌, count, length-map, ◌≡◌, ◌≤◌, refl, ap, sym, subst, ◌∙◌, String, Bool, true,
  false, not, ◌&&◌, Option, none, some, List, [], ◌∷◌, if◌then◌else◌, arith, length, is_nil, select,
  has, any, All, All-weaken, All-select, select-All, eq_string, any-has, unique, str_eq, str_eq_iff,
  Bool-cases, inl, inr,
}
use frontier_refactor_factor.Exec.{Exec, ok}
use frontier_refactor_factor.Exec.Ensures.{Ensures, Ensures-lift, Ensures-bind, ok-injective}
use frontier_refactor_factor.Process.{Observation, Expectation, froze_work}
use frontier_refactor_factor.Process.Corpus.{Scenario, Corpus}
use frontier_refactor_factor.Process.Timing.{Feature, pick_timed}
use frontier_refactor_factor.Process.Workload.{control_signatures}
use frontier_refactor_factor.Process.Tally.{
  Tallied, names, hold_out, conclude, eligible_scenarios, with_families, index_error,
  is_never_found, is_idle, never_found_corpus, idle_corpus, nothing_yet, ◌>>=◌ as then_some,
}
use frontier_refactor_factor.Process.Freeze.{freeze, freeze_loop, after_loop}
use frontier_refactor_factor.Process.Laws.Timed.{pick_timed_lem}
use frontier_refactor_factor.Process.Laws.Frozen.{Credited, Pointed, Sane, ids}
use frontier_refactor_factor.Process.Laws.Counted.{Counted, Ends, freeze_loop-Ends}

module _ (sha : String → String) where
  abbrev pub works : List (String × List Expectation) → Bool
  works = any (λ (pid, steps). froze_work sha steps)

  credit-works :
      (worked : List String) (es : List (String × List Expectation)) (w : String)
      → All (Credited sha worked) es
      → has worked w ≡ true
      → has (names es) w ≡ true
      → works es ≡ true
  credit-works worked [] w h m k = ground (arith, k)
  credit-works worked ((pid, steps) ∷ es) w (h, hs) m k = elim (Bool-cases (str_eq w pid)) [
    | inl e ↦
        let same = (str_eq_iff w pid).0 e in
        let work = h (ap (λ v. has worked v) (sym same) ∙ m) in ground (arith, work)
    | inr e ↦ ground (arith, e, credit-works worked es w hs m (ground (arith, k, e)))
  ]

  -- What a usable corpus has: no scenario is both graded and timed, every graded scenario has a
  -- point, some graded scenario shows the program working, one to three are timed; the scenarios
  -- that it keeps are graded or timed, those that it counts as discarded are all the others, and
  -- they are at most a quarter.
  pub record Sound (scenarios : List Scenario) (c : Corpus) : Type 0 where
    pub apart : All (λ (pid, steps). has c.timed pid ≡ false) c.expectations
    pub pointed : All (Pointed sha) c.expectations
    pub working : works c.expectations ≡ true
    pub some_timed : is_nil c.timed ≡ false
    pub few_timed : length c.timed ≤ 3
    pub has_rules :
        All
          (λ s. (has (names c.expectations) s.probe_id || has c.timed s.probe_id) ≡ true)
          c.scenarios
    pub are_drawn : All (λ s. has (ids sha scenarios) s.probe_id ≡ true) c.scenarios
    pub all_counted : length c.scenarios + c.discarded ≡ length scenarios
    pub few_lost : 4 * c.discarded ≤ length scenarios

  Sound-if :
      (scenarios : List Scenario) (b : Bool) (c d : Corpus)
      → c.usable ≡ false
      → (b ≡ false → d.usable ≡ true → Sound scenarios d)
      → (if b then c else d).usable ≡ true
      → Sound scenarios (if b then c else d)
  Sound-if scenarios true c d h k u = ground (arith, h, u)
  Sound-if scenarios false c d h k u = k refl u

  -- The graded part of what was frozen.
  abbrev graded_of : List String → Tallied → List (String × List Expectation)
  graded_of timed t = select (λ (pid, steps). not (has timed pid)) t.frozen

  graded-works :
      (timed : List String) (t : Tallied)
      → Sane sha [] t
      → any (λ w. has (names (graded_of timed t)) w) t.worked ≡ true
      → works (graded_of timed t) ≡ true
  graded-works timed t s h =
      let (w, m, k) = any-has (names (graded_of timed t)) t.worked h in
      credit-works t.worked (graded_of timed t) w
        (All-select (Credited sha t.worked) (λ (pid, steps). not (has timed pid)) t.frozen s.work) m
        k

  is_split :
      (timed : List String) (es : List (String × List Expectation)) (k : String)
      → has (names es) k ≡ true
      → (has (names (select (λ (pid, steps). not (has timed pid)) es)) k || has timed k) ≡ true
  is_split timed [] k h = ground (arith, h)
  is_split timed ((pid, steps) ∷ es) k h = elim (Bool-cases (str_eq k pid)) [
    | inl e ↦
        let same : has timed k ≡ has timed pid = ap (has timed) ((str_eq_iff k pid).0 e) in
        ground (arith, e, same)
    | inr e ↦ ground (arith, h, e, is_split timed es k)
  ]

  -- The scenarios whose names were frozen.
  abbrev kept_of : List String → List Scenario → List Scenario
  kept_of ns = select (λ s. has ns s.probe_id)

  length-kept :
      (ns : List String) (scenarios : List Scenario)
      → length (kept_of ns scenarios) ≡ count (has ns) (ids sha scenarios)
  length-kept ns [] = refl
  length-kept ns (s ∷ scenarios) = ground (arith, length-kept ns scenarios)

  kept-has_rules :
      (timed : List String) (t : Tallied) (scenarios : List Scenario)
      → All
          (λ s. (has (names (graded_of timed t)) s.probe_id || has timed s.probe_id) ≡ true)
          (kept_of (names t.frozen) scenarios)
  kept-has_rules timed t scenarios =
      All-weaken (λ s. has (names t.frozen) s.probe_id ≡ true)
        (λ s. (has (names (graded_of timed t)) s.probe_id || has timed s.probe_id) ≡ true)
        (kept_of (names t.frozen) scenarios) (λ s h. is_split timed t.frozen s.probe_id h)
        (select-All (λ s. has (names t.frozen) s.probe_id) scenarios)

  kept-drawn :
      (ns : List String) (scenarios : List Scenario) (pids : List String)
      → ((i : String) → has (ids sha scenarios) i ≡ true → has pids i ≡ true)
      → All (λ s. has pids s.probe_id ≡ true) (kept_of ns scenarios)
  kept-drawn ns [] pids h = tt
  kept-drawn ns (s ∷ scenarios) pids h = elim (Bool-cases (has ns s.probe_id)) [
    | inl e ↦ rw e (
      h s.probe_id (ground (arith, str_eq_iff s.probe_id s.probe_id)),
      kept-drawn ns scenarios pids λ i m. h i (ground (arith, m)),
    )
    | inr e ↦ rw e (kept-drawn ns scenarios pids λ i m. h i (ground (arith, m)))
  ]

  hold_out-Sound :
      (scenarios : List Scenario) (runs : ℕ) (t : Tallied) (timed : List String)
      → Sane sha [] t
      → Counted sha (ids sha scenarios) nothing_yet t
      → length timed ≤ 3
      → (hold_out sha scenarios runs t timed).usable ≡ true
      → Sound scenarios (hold_out sha scenarios runs t timed)
  unfolding hold_out
  hold_out-Sound scenarios runs t [] s k n u = ground (arith, u)
  hold_out-Sound scenarios runs t (p ∷ ps) s k n u =
      let timed = p ∷ ps in
      let graded = graded_of timed t in
      let untimed = λ (x : String × List Expectation). not (has timed x.0) in
      Sound-if scenarios (not (is_nil graded) && not (any (λ w. has (names graded) w) t.worked)) _ _
        refl
        (λ c v. record {
          apart =
              All-weaken (λ x. untimed x ≡ true) (λ x. has timed x.0 ≡ false) graded
                (λ x h. ground (arith, h)) (select-All untimed t.frozen);
          pointed = All-select (Pointed sha) untimed t.frozen s.points;
          working = graded-works timed t s (ground (arith, c, v));
          some_timed = refl;
          few_timed = n;
          has_rules = kept-has_rules timed t scenarios;
          are_drawn = kept-drawn (names t.frozen) scenarios (ids sha scenarios) λ i h. h;
          all_counted = ground (
            arith,
            k.each,
            length-kept (names t.frozen) scenarios,
            length-map (λ s. s.probe_id) scenarios,
          );
          few_lost = ground (arith, v);
        })
        u

  refusals :
      (scenarios : List Scenario) (a b : Bool) (c d : Corpus) (m : Option (List (String × Feature)))
      (held : List (String × Feature) → Corpus) (e : Corpus)
      → c.usable ≡ false
      → d.usable ≡ false
      → ((features : List (String × Feature))
          → (held features).usable ≡ true
          → Sound scenarios (held features))
      → (if a then ok c else if b then ok d else index_error (then_some m λ f. some (held f)))
        ≡ ok e
      → e.usable ≡ true
      → Sound scenarios e
  refusals scenarios true b c d m held e hc hd h q u =
      let same = ok-injective q in ground (arith, hc, u, ap (λ x. x.usable) same)
  refusals scenarios false true c d m held e hc hd h q u =
      let same = ok-injective q in ground (arith, hd, u, ap (λ x. x.usable) same)
  refusals scenarios false false c d none held e hc hd h q u = cc
  refusals scenarios false false c d (some f) held e hc hd h q u =
      let same = ok-injective q in subst (Sound scenarios) same (h f (ap (λ x. x.usable) same ∙ u))

  length-timed :
      (features : List (String × Feature)) (pids eligible : List String)
      → unique pids ≡ true
      → length (pick_timed features pids 3 eligible) ≤ 3
  length-timed features pids eligible u =
      let held = pick_timed_lem features pids eligible 3 u in ground (arith, held.at_most)

  conclude-Sound :
      (is_digit : String → Bool) (features : List (String × Feature)) (scenarios : List Scenario)
      (runs : ℕ) (t : Tallied) (c : Corpus)
      → Sane sha [] t
      → Counted sha (ids sha scenarios) nothing_yet t
      → conclude sha is_digit features scenarios runs t ≡ ok c
      → c.usable ≡ true
      → Sound scenarios c
  unfolding conclude
  conclude-Sound is_digit features scenarios runs t c s k e u =
      let eligible =
        eligible_scenarios sha t.frozen (control_signatures scenarios t.frozen) scenarios in
      refusals scenarios (is_never_found scenarios t) (is_idle scenarios t)
        (never_found_corpus scenarios runs) (idle_corpus scenarios runs)
        (with_families is_digit scenarios features)
        (λ f. hold_out sha scenarios runs t (pick_timed f (names t.frozen) 3 eligible)) c refl refl
        (λ f.
          hold_out-Sound scenarios runs t (pick_timed f (names t.frozen) 3 eligible) s k
            (length-timed f (names t.frozen) eligible s.once))
        e u

  module _ {W : Type 0} (is_digit : String → Bool) (late : Exec W Bool)
      (observe : Scenario → Exec W (List (List Observation))) where
    after_loop-Sound :
        (features : List (String × Feature)) (scenarios : List Scenario) (runs : ℕ)
        (end : Option Tallied) (c : Corpus)
        → Ends sha (ids sha scenarios) nothing_yet end
        → after_loop sha is_digit late observe features scenarios runs end ≡ ok c
        → c.usable ≡ true
        → Sound scenarios c
    after_loop-Sound features scenarios runs none c s e u =
        let same = ok-injective e in ground (arith, u, ap (λ x. x.usable) same)
    after_loop-Sound features scenarios runs (some t) c (s, k) e u =
        conclude-Sound is_digit features scenarios runs t c s k e u

    -- Where no two scenarios have one name, and whatever the clock says and the observer sees, a
    -- corpus that the freeze answers as usable is sound: no scenario is both graded and timed, every
    -- graded one has a point, some graded one shows the program working, one to three are timed;
    -- those that the corpus keeps are scenarios that were given and are graded or timed, those that
    -- it counts as discarded are as many as the others, and they are at most a quarter of all.
    pub freeze-Sound :
        (features : List (String × Feature)) (scenarios : List Scenario) (runs : ℕ)
        → unique (ids sha scenarios) ≡ true
        → Ensures
            (λ c. c.usable ≡ true → Sound scenarios c)
            (freeze sha is_digit late observe features scenarios runs)
    unfolding freeze
    freeze-Sound features scenarios runs u =
        Ensures-bind (freeze_loop sha is_digit late observe scenarios nothing_yet) _
          (freeze_loop-Ends sha is_digit late observe scenarios nothing_yet u (record {
            points = tt;
            work = tt;
            known = λ k m. ground arith;
            fresh = λ k m. ground arith;
            once = refl;
          }))
          λ end s.
            Ensures-lift (after_loop sha is_digit late observe features scenarios runs end)
              λ c e. after_loop-Sound features scenarios runs end c s e
