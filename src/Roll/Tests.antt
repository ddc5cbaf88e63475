-- ===== src/Roll/Tests.antt =====
-- A roll for two tasks over three candidates, of which the first cannot be started.
use frontier_refactor_factor.Prelude.{
  ℕ, zero, suc, subst, ◌+◌, ◌≤◌, ◌≡◌, refl, String, Bool, true, false, List, [], ◌∷◌, arith, take,
  str_eq, length,
}
use frontier_refactor_factor.Exec.{Exec, Result, ok, err, error, os_error}
use frontier_refactor_factor.Exec.Ensures.{Ensures, ok-injective}
use frontier_refactor_factor.Pipeline.Spec.{Candidate}
use frontier_refactor_factor.Diversity.{DiversityPolicy, repository_key}
use frontier_refactor_factor.Roll.{attempt_limit, roll}
use frontier_refactor_factor.Roll.Laws.{Keeps, has_reason, roll-Keeps}
use frontier_refactor_factor.Roll.Ends.{has_ended, is_supplied, roll_ends}

abbrev candidate : String → Candidate
candidate i = record { identity = i; scale = "module"; language = "python"; source = "" }

abbrev stock : List Candidate
stock = candidate "x@1#f" ∷ candidate "y@1#g" ∷ candidate "z@1#h" ∷ []

abbrev find : ℕ → Exec ℕ (List Candidate)
find n w = (ok (take n stock), w + 1)

abbrev answer : Bool → Result ℕ
answer true = err (error (record { class = os_error "OSError"; text = "no route to host" }))
answer false = ok 1

abbrev run : Candidate → Exec ℕ ℕ
run c w = (answer (str_eq c.identity "x@1#f"), w)

answer-one : (b : Bool) (n : ℕ) → answer b ≡ ok n → n ≤ 1
answer-one true n e = cc
answer-one false n e = subst (λ k. k ≤ 1) (ok-injective e) (omega arith)

run-one : (c : Candidate) → Ensures (λ n. n ≤ 1) (run c)
run-one c = record { at = λ w n e. answer-one (str_eq c.identity "x@1#f") n e }

abbrev supply : List String
supply = "x@1#f" ∷ "y@1#g" ∷ "z@1#h" ∷ []

stock-supplied : (n : ℕ) → is_supplied supply (take n stock) ≡ true
stock-supplied zero = refl
stock-supplied (suc zero) = refl
stock-supplied (suc (suc zero)) = refl
stock-supplied (suc (suc (suc zero))) = refl
stock-supplied (suc (suc (suc (suc n)))) = refl

find-supplied : (n : ℕ) → Ensures (λ batch. is_supplied supply batch ≡ true) (find n)
find-supplied n = record {
  at = λ w batch e. subst (λ b. is_supplied supply b ≡ true) (ok-injective e) (stock-supplied n);
}

abbrev policy : DiversityPolicy
policy = record { max_per_repository = 4; repositories = [] }

two_rounds : (roll find run 3 2 0 policy 0).1 ≡ 2
unfolding roll repository_key
two_rounds = refl

roll-Keeps_example :
    Ensures
      (λ x. Keeps 2 (attempt_limit 2 0) x.state × (has_reason 2 (attempt_limit 2 0) x ≡ true))
      (roll find run 3 2 0 policy)
roll-Keeps_example = roll-Keeps find run 3 2 0 policy run-one

roll_ends_example :
    Ensures
      (λ x. has_ended x ≡ true)
      (roll find run (length supply + attempt_limit 2 0 + 1) 2 0 policy)
roll_ends_example = roll_ends find run supply 2 0 policy find-supplied
