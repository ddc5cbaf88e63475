-- ===== src/Evidence/Laws/Exact.antt =====
-- Each check is passed exactly on the evidence that it names.
use frontier_refactor_factor.Prelude.{
  ℕ, suc, ◌≡◌, ◌≤◌, refl, ap, String, Bool, true, not, ◌&&◌, ◌||◌, List, [], ◌∷◌, arith, ◌==◌, ltb,
  leb, if◌then◌else◌, is_nil, any, all, length, str_eq, str_eq_iff,
}
use frontier_refactor_factor.Evidence.{verdict_ok}
use frontier_refactor_factor.Evidence.Checks.{
  ceiling, scan_directories, no_runnable_reference, points_are_about_the_subject,
  cannot_delegate_to_the_reference, package_reproduces_itself, ImageOutcome,
  reproduces_in_its_own_image, digest_set, has_text, seed_independent,
}

scan_directories-nil :
    (find : String → List String) (ds : List (String × String))
    → is_nil (scan_directories find ds) ≡ all (λ (label, path). is_nil (find path)) ds
unfolding scan_directories
scan_directories-nil find [] = refl
scan_directories-nil find (d ∷ ds) = ground (arith, scan_directories-nil find ds)

no_runnable_reference_lem :
    (find : String → List String) (ds : List (String × String))
    → verdict_ok (no_runnable_reference find ds)
      ≡ (not (is_nil ds) && all (λ (label, path). is_nil (find path)) ds)
unfolding no_runnable_reference
no_runnable_reference_lem find [] = refl
no_runnable_reference_lem find (d ∷ ds) = ground (arith, scan_directories-nil find (d ∷ ds))

pub ceiling_ok :
    (score : ℕ × ℕ) → verdict_ok (ceiling score) ≡ (ltb 0 score.1 && score.0 == score.1)
unfolding ceiling
ceiling_ok score = ground arith

pub points_ok :
    (score : ℕ × ℕ) (applies : Bool)
    → verdict_ok (points_are_about_the_subject score applies)
      ≡ (not applies || (ltb 0 score.1 && score.0 == score.1))
unfolding points_are_about_the_subject
points_ok score applies = ground arith

pub delegate_ok :
    (forbidden : List String) (isolated : Bool)
    → verdict_ok (cannot_delegate_to_the_reference forbidden isolated)
      ≡ (is_nil forbidden && isolated)
unfolding cannot_delegate_to_the_reference
delegate_ok forbidden isolated = ground arith

-- E1, E4, E5, E6, E7 and E9 are ok exactly on their evidence: the reference (in the build tree, and
-- again in the package) has full marks of a positive total; some directory was searched and none
-- holds a runnable reference; every scored step of a positive number touches the subject, where
-- the check applies; nothing forbidden was found and isolation is in force; and the image
-- reproduced the task.
pub checks_exact :
    (score : ℕ × ℕ) (find : String → List String) (ds : List (String × String)) (applies : Bool)
    (forbidden : List String) (isolated : Bool) (o : ImageOutcome)
    → (verdict_ok (ceiling score) ≡ (ltb 0 score.1 && score.0 == score.1))
      × (verdict_ok (no_runnable_reference find ds)
          ≡ (not (is_nil ds) && all (λ (label, path). is_nil (find path)) ds))
      × (verdict_ok (points_are_about_the_subject score applies)
          ≡ (not applies || (ltb 0 score.1 && score.0 == score.1)))
      × (verdict_ok (cannot_delegate_to_the_reference forbidden isolated)
          ≡ (is_nil forbidden && isolated))
      × (verdict_ok (package_reproduces_itself score) ≡ (ltb 0 score.1 && score.0 == score.1))
      × (verdict_ok (reproduces_in_its_own_image o) ≡ o.reproduced)
unfolding package_reproduces_itself reproduces_in_its_own_image
checks_exact score find ds applies forbidden isolated o = (
  ceiling_ok score,
  no_runnable_reference_lem find ds,
  points_ok score applies,
  delegate_ok forbidden isolated,
  ground arith,
  ground arith,
)

has_text_cong : (xs : List String) (a b : String) → a ≡ b → has_text xs a ≡ has_text xs b
has_text_cong xs a b e = ap (has_text xs) e

-- The digest of the first seed is that of every seed.
abbrev pub all_equal : (ℕ → String) → List ℕ → Bool
all_equal freeze [] = true
all_equal freeze (s ∷ seeds) = all (λ t. str_eq (freeze s) (freeze t)) seeds

has_text-digest_set :
    (freeze : ℕ → String) (seeds : List ℕ) (d : String)
    → has_text (digest_set freeze seeds) d ≡ any (λ s. str_eq (freeze s) d) seeds
unfolding digest_set
has_text-digest_set freeze [] d = refl
has_text-digest_set freeze (s ∷ seeds) d = ground (
  arith,
  has_text-digest_set freeze seeds d,
  has_text-digest_set freeze seeds (freeze s),
  has_text_cong (digest_set freeze seeds) (freeze s) d,
  str_eq_iff (freeze s) d,
)

same_as_all :
    (freeze : ℕ → String) (t d : String) (seeds : List ℕ)
    → all (λ s. str_eq t (freeze s)) seeds ≡ true
    → any (λ s. str_eq (freeze s) d) seeds ≡ true
    → t ≡ d
same_as_all freeze t d [] h a = cc
same_as_all freeze t d (s ∷ seeds) h a =
    ground (arith, same_as_all freeze t d seeds, str_eq_iff t (freeze s), str_eq_iff (freeze s) d)

length-digest_set :
    (freeze : ℕ → String) (s : ℕ) (seeds : List ℕ)
    → length (digest_set freeze (s ∷ seeds)) ≡ (
        if any (λ t. str_eq (freeze t) (freeze s)) seeds
        then length (digest_set freeze seeds)
        else suc (length (digest_set freeze seeds)))
unfolding digest_set
length-digest_set freeze s seeds = ground (arith, has_text-digest_set freeze seeds (freeze s))

length-digest_set_pos :
    (freeze : ℕ → String) (s : ℕ) (seeds : List ℕ) → 1 ≤ length (digest_set freeze (s ∷ seeds))
length-digest_set_pos freeze s [] = unfold digest_set in omega arith
length-digest_set_pos freeze s (t ∷ seeds) =
    ground (arith, length-digest_set freeze s (t ∷ seeds), length-digest_set_pos freeze t seeds)

all_from :
    (freeze : ℕ → String) (a b : String) (seeds : List ℕ)
    → a ≡ b
    → all (λ t. str_eq a (freeze t)) seeds ≡ all (λ t. str_eq b (freeze t)) seeds
all_from freeze a b seeds e = ap (λ c. all (λ t. str_eq c (freeze t)) seeds) e

one_digest :
    (freeze : ℕ → String) (s : ℕ) (seeds : List ℕ)
    → (length (digest_set freeze (s ∷ seeds)) == 1) ≡ all (λ t. str_eq (freeze s) (freeze t)) seeds
one_digest freeze s [] = unfold digest_set in refl
one_digest freeze s (t ∷ seeds) = ground (
  arith,
  length-digest_set freeze s (t ∷ seeds),
  length-digest_set_pos freeze t seeds,
  one_digest freeze t seeds,
  same_as_all freeze (freeze t) (freeze s) seeds,
  all_from freeze (freeze t) (freeze s) seeds,
  str_eq_iff (freeze s) (freeze t),
  str_eq_iff (freeze t) (freeze s),
)

-- E8 is ok exactly when at least two seeds were tried and every one gives the digest of the first.
pub seed_independent_lem :
    (freeze : ℕ → String) (seeds : List ℕ)
    → verdict_ok (seed_independent freeze seeds) ≡ (leb 2 (length seeds) && all_equal freeze seeds)
unfolding seed_independent
seed_independent_lem freeze [] = refl
seed_independent_lem freeze (s ∷ seeds) = ground (arith, one_digest freeze s seeds)
