-- ===== src/Evidence/Laws/Ends.antt =====
-- E1 and E2: the reference scores full marks and nothing trivial does.
use frontier_refactor_factor.Prelude.{
  ℕ, ◌*◌, ◌≤◌, ◌<◌, ◌≡◌, ◌≢◌, refl, String, Bool, false, ◌||◌, List, [], ◌∷◌, arith, ltb, ◌==◌,
  if◌then◌else◌, is_nil, any, All,
}
use frontier_refactor_factor.Evidence.{holds, fails, inconclusive}
use frontier_refactor_factor.Evidence.Checks.{
  ceiling, Worst, try_trivial, conclude_floor, scan_floor, floor,
}

mul-le_comm : (p t w : ℕ) → p ≤ t → p * w ≤ w * t
mul-le_comm p t w h = grind arith

-- A submission with full marks has the best share there is.
full_marks-not_beaten : (wp wt p t : ℕ) → wp ≡ wt → p ≤ t → ltb (wp * t) (p * wt) ≡ false
full_marks-not_beaten wp wt p t e h = rw e (ground (arith, mul-le_comm p t wt h))

not_beaten-full_marks :
    (wp wt p t : ℕ) → wp ≤ wt → 0 < t → p ≡ t → ltb (wp * t) (p * wt) ≡ false → wp ≡ wt
not_beaten-full_marks wp wt p t h q e f = grind arith

module _ (score : String → ℕ × ℕ) where
  abbrev pub ungraded : String → Bool
  ungraded n = (score n).1 == 0

  abbrev pub full_marks : String → Bool
  full_marks n = (score n).0 == (score n).1

  -- A submission passes at most what is graded.
  abbrev pub IsScore : String → Type 0
  IsScore n = (score n).0 ≤ (score n).1

  -- What is left of the loop, from the best submission so far.
  scan_floor_lem :
      (names : List String) (w : Worst)
      → w.passed ≤ w.total
      → 0 < w.total
      → All IsScore names
      → (scan_floor score w names).outcome ≡ (
          if any ungraded names
          then inconclusive
          else if (w.passed == w.total) || any full_marks names
          then fails
          else holds)
  unfolding scan_floor conclude_floor try_trivial
  scan_floor_lem [] w h p a = ground arith
  scan_floor_lem (n ∷ names) w h p a =
      let (passed, total) = score n in
      let this : Worst = record { name = n; passed = passed; total = total } in
      ground (
        arith,
        scan_floor_lem names w h p a.1,
        scan_floor_lem names this a.0,
        full_marks-not_beaten w.passed w.total passed total,
        not_beaten-full_marks w.passed w.total passed total,
      )

  pub floor_lem :
      (names : List String)
      → All IsScore names
      → (floor score names).outcome ≡ (
          if is_nil names || any ungraded names
          then inconclusive
          else if any full_marks names
          then fails
          else holds)
  unfolding floor try_trivial
  floor_lem [] a = ground arith
  floor_lem (n ∷ names) a =
      let (passed, total) = score n in
      ground (arith, scan_floor_lem names (record { name = n; passed = passed; total = total }) a.0)

All-const : (p t : ℕ) (names : List String) → p ≤ t → All (IsScore (λ _. (p, t))) names
All-const p t [] h = tt
All-const p t (n ∷ names) h = (h, All-const p t names h)

never_ungraded :
    (p t : ℕ) (names : List String) → 0 < t → any (ungraded (λ _. (p, t))) names ≡ false
never_ungraded p t [] h = refl
never_ungraded p t (n ∷ names) h = ground (arith, never_ungraded p t names h)

-- The battery bites from both ends: of a verifier that gives every submission one score, `k`, it
-- never says both that the reference has full marks and that nothing trivial has.
pub constant_verifier_fails :
    (k : ℕ × ℕ) (names : List String)
    → (ceiling k).outcome ≡ holds
    → (floor (λ _. k) names).outcome ≢ holds
unfolding ceiling
constant_verifier_fails (passed, total) [] c f = ground (arith, floor_lem (λ _. (passed, total)) [])
constant_verifier_fails (passed, total) (n ∷ names) c f = ground (
  arith,
  floor_lem (λ _. (passed, total)) (n ∷ names),
  All-const passed total (n ∷ names),
  never_ungraded passed total names,
)
