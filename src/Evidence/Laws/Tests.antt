-- ===== src/Evidence/Laws/Tests.antt =====
-- The theorems of the checks at concrete inputs.
use frontier_refactor_factor.Prelude.{
  ℕ, ◌≡◌, ◌≢◌, refl, String, Bool, true, false, List, [], ◌∷◌, str_eq, ◌==◌, if◌then◌else◌,
}
use frontier_refactor_factor.Evidence.{holds, fails, verdict_ok}
use frontier_refactor_factor.Evidence.Checks.{
  ceiling, floor, channels_bite, no_runnable_reference, points_are_about_the_subject,
  cannot_delegate_to_the_reference, package_reproduces_itself, ImageOutcome,
  reproduces_in_its_own_image, seed_independent,
}
use frontier_refactor_factor.Evidence.Laws.Ends.{constant_verifier_fails}
use frontier_refactor_factor.Evidence.Laws.Channels.{channels_bite_lem}
use frontier_refactor_factor.Evidence.Laws.Exact.{checks_exact, seed_independent_lem}

-- One submission passes half of four points, and the other three quarters.
abbrev halves : String → ℕ × ℕ
halves n = if str_eq n "exit-1" then (3, 4) else (2, 4)

abbrev submissions : List String
submissions = "exit-0" ∷ "exit-1" ∷ []

-- A verifier that gives full marks to everything.
ceiling_of_ten : (ceiling (10, 10)).outcome ≡ holds
unfolding ceiling
ceiling_of_ten = refl

constant_verifier_fails_example : (floor (λ _. (10, 10)) submissions).outcome ≢ holds
constant_verifier_fails_example = constant_verifier_fails (10, 10) submissions ceiling_of_ten

-- The files of the tree were not changed by any mutation, and the exit code was, unnoticed.
abbrev perturbed : String → Bool × Bool
perturbed c = if str_eq c "tree" then (false, false) else (true, false)

channels_bite_lem_example : (channels_bite perturbed ("tree" ∷ "exit" ∷ [])).outcome ≡ fails
channels_bite_lem_example = channels_bite_lem perturbed ("tree" ∷ "exit" ∷ [])

abbrev unbuilt : ImageOutcome
unbuilt = record { reproduced = false; stage = "build"; detail = "no such image"; total = 0 }

checks_exact_example :
    (verdict_ok (ceiling (9, 10)) ≡ false)
    × (verdict_ok (no_runnable_reference (λ p. []) (("tests", "/tests") ∷ [])) ≡ true)
    × (verdict_ok (points_are_about_the_subject (9, 10) false) ≡ true)
    × (verdict_ok (cannot_delegate_to_the_reference [] false) ≡ false)
    × (verdict_ok (package_reproduces_itself (9, 10)) ≡ false)
    × (verdict_ok (reproduces_in_its_own_image unbuilt) ≡ false)
checks_exact_example =
    checks_exact (9, 10) (λ p. []) (("tests", "/tests") ∷ []) false [] false unbuilt

-- The third seed gives another digest.
abbrev digest : ℕ → String
digest n = if n == 2 then "b" else "a"

seed_independent_lem_example : verdict_ok (seed_independent digest (0 ∷ 1 ∷ 2 ∷ [])) ≡ false
seed_independent_lem_example = seed_independent_lem digest (0 ∷ 1 ∷ 2 ∷ [])
