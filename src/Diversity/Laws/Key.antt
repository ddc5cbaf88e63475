-- ===== src/Diversity/Laws/Key.antt =====
-- Which identities are of one repository.
use Prim.Native.String.append
use Prim.Native.Char.{code, Char}
use frontier_refactor_factor.Prelude.{ℕ, ◌≡◌, refl, ap, ◌∙◌, String, false, ◌||◌, arith, ◌<>◌}
use frontier_refactor_factor.Diversity.{has_code, before_first, before_last, repository_key}

before_first-cut :
    (c : ℕ) (s t : String) (d : Char)
    → has_code c s ≡ false
    → code d ≡ c
    → before_first c (s <> String.◌∷◌ d t) ≡ s
unfolding before_first has_code
before_first-cut c String.[] t d h e = rw append.nil (ground (arith, e))
before_first-cut c (String.◌∷◌ a s) t d h e =
    rw append.cons (ground (arith, before_first-cut c s t d, e, h))

abbrev pub at_sign : Char
at_sign = "@"

abbrev pub hash : Char
hash = "#"

has_code-append : (c : ℕ) (s t : String) → has_code c (s <> t) ≡ (has_code c s || has_code c t)
unfolding has_code
has_code-append c String.[] t = rw append.nil refl
has_code-append c (String.◌∷◌ a s) t = rw append.cons (ground (arith, has_code-append c s t))

before_last-cut :
    (c : ℕ) (s t : String) (d : Char)
    → has_code c t ≡ false
    → code d ≡ c
    → before_last c (s <> String.◌∷◌ d t) ≡ s
unfolding before_last has_code
before_last-cut c String.[] t d h e = rw append.nil (ground (arith, e, h))
before_last-cut c (String.◌∷◌ a s) t d h e =
    rw append.cons
      (ground (arith, before_last-cut c s t d, has_code-append c s (String.◌∷◌ d t), e, h))

before_first-none : (c : ℕ) (s : String) → has_code c s ≡ false → before_first c s ≡ s
unfolding before_first has_code
before_first-none c String.[] h = refl
before_first-none c (String.◌∷◌ a s) h = ground (arith, h, before_first-none c s)

versioned-no_hash :
    (repo version : String)
    → has_code b'#' repo ≡ false
    → has_code b'#' version ≡ false
    → has_code b'#' (repo <> String.◌∷◌ at_sign version) ≡ false
unfolding has_code
versioned-no_hash repo version r h =
    ground (arith, has_code-append b'#' repo (String.◌∷◌ at_sign version), r, h)

-- Every version of a repository, and every part of a version, counts against the repository
-- itself, whose name may have `@` in it, as a scoped package has: of `repo@version#part`, and of
-- `repo@version`, the key is `repo`, where `repo` has no `#`, and `version` neither `@` nor `#`.
pub repository_key_lem :
    (repo version part : String)
    → has_code b'#' repo ≡ false
    → has_code b'#' version ≡ false
    → has_code b'@' version ≡ false
    → (repository_key ((repo <> String.◌∷◌ at_sign version) <> String.◌∷◌ hash part) ≡ repo)
      × (repository_key (repo <> String.◌∷◌ at_sign version) ≡ repo)
unfolding repository_key has_code
repository_key_lem repo version part r h a =
    let no_hash = versioned-no_hash repo version r h in
    let key = before_last-cut b'@' repo version at_sign a refl in
    (
      ap (before_last b'@')
            (before_first-cut b'#' (repo <> String.◌∷◌ at_sign version) part hash no_hash refl)
          ∙ key,
      ap (before_last b'@') (before_first-none b'#' (repo <> String.◌∷◌ at_sign version) no_hash)
          ∙ key,
    )
