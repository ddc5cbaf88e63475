-- ===== src/Diversity.antt =====
-- frf/core/diversity.py: at most so many candidates of one repository. The table of the policies
-- that jobs share holds the objects themselves, so that what one job accepts counts for the next.
pub mod Laws
mod Tests
use Prim.Native.Char.{code, Char}
use frontier_refactor_factor.Prelude.{
  ℕ, ◌+◌, String, Bool, true, false, Option, none, some, List, [], ◌∷◌, leb, ◌==◌, if◌then◌else◌,
  find, set, not, ◌&&◌, ◌||◌, length,
}

-- `c in text`
unfoldable pub has_code : ℕ → String → Bool
has_code c String.[] = false
has_code c (String.◌∷◌ d s) = code d == c || has_code c s

-- `text.split(c, 1)[0]`
unfoldable pub before_first : ℕ → String → String
before_first c String.[] = String.[]
before_first c (String.◌∷◌ d s) =
    let rest = before_first c s in if code d == c then String.[] else String.◌∷◌ d rest

-- `text.rsplit(c, 1)[0]`
unfoldable pub before_last : ℕ → String → String
unfolding has_code
before_last c String.[] = String.[]
before_last c (String.◌∷◌ d s) =
    let rest = before_last c s in
    if code d == c && not (has_code c s) then String.[] else String.◌∷◌ d rest

unfoldable pub repository_key : String → String
unfolding before_first before_last
repository_key identity = before_last b'@' (before_first b'#' identity)

pub record DiversityPolicy : Type 0 where
  pub max_per_repository : ℕ
  pub repositories : List (String × ℕ)

-- `DiversityPolicy(max_per_repository=n)`
unfoldable pub new_policy : ℕ → DiversityPolicy
new_policy n = record { max_per_repository = (if leb 1 n then n else 1); repositories = [] }

-- `self._repositories[key]`, of a Counter
abbrev pub or_zero : Option ℕ → ℕ
or_zero none = 0
or_zero (some n) = n

abbrev pub counted : DiversityPolicy → String → ℕ
counted p key = or_zero (find key p.repositories)

unfoldable pub accept : DiversityPolicy → String → Bool × DiversityPolicy
accept p identity =
    let key = repository_key identity in
    if leb p.max_per_repository (counted p key)
    then (false, p)
    else (true, record p { repositories = set key (counted p key + 1) p.repositories })

-- The shared policies, by scale.
abbrev pub Shared : Type 0
Shared = List (String × DiversityPolicy)

abbrev pub or_new : Option DiversityPolicy → ℕ → DiversityPolicy
or_new none n = new_policy n
or_new (some p) n = p

abbrev pub use_policy : Option DiversityPolicy → String → ℕ → Shared → DiversityPolicy × Shared
use_policy none scale n shared = (new_policy n, set scale (new_policy n) shared)
use_policy (some p) scale n shared = (p, shared)

-- The policy of a scale, created on first use; a cap that differs later is not honoured.
unfoldable pub shared_policy : String → ℕ → Shared → DiversityPolicy × Shared
unfolding new_policy
shared_policy scale n shared = use_policy (find scale shared) scale n shared

-- One candidate of one job, which has its policy from `shared_policy`. A job asks for the policy
-- once; to ask again changes nothing.
pub record Offer : Type 0 where
  pub scale : String
  pub cap : ℕ
  pub identity : String

unfoldable pub offer : Offer → Shared → Bool × Shared
unfolding shared_policy accept
offer o shared =
    let (p, there) = shared_policy o.scale o.cap shared in
    let (taken, p') = accept p o.identity in (taken, set o.scale p' there)

-- What is accepted of the candidates of all jobs, in the order in which they are offered.
unfoldable pub offer_all : List Offer → Shared → List Offer
unfolding offer
offer_all [] shared = []
offer_all (o ∷ os) shared =
    let (taken, next) = offer o shared in
    let rest = offer_all os next in if taken then o ∷ rest else rest
