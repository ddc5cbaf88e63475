-- ===== src/Sourcing/Laws/Fresh.antt =====
-- A list of candidates that are new, each in turn, to a growing set of identities.
use frontier_refactor_factor.Prelude.{
  ◌≡◌, String, true, false, List, [], ◌∷◌, ◌++◌, arith, All, str_eq, str_eq_iff,
}
use frontier_refactor_factor.Pipeline.Spec.{Candidate}
use frontier_refactor_factor.Sourcing.Memory.{has}
use frontier_refactor_factor.Sourcing.Laws.Memory.{has_cong}

pub record Grows (s t : List String) : Type 0 where
  pub at : (id : String) → has s id ≡ true → has t id ≡ true

-- `Fresh s cs t`: seen before, the candidates, seen after.
pub data Fresh : List String → List Candidate → List String → Type 0 where
  stop : {s t : List String} → Grows s t → Fresh s [] t
  yield_one :
      {s t u : List String} {c : Candidate} {cs : List Candidate}
      → has s c.identity ≡ false
      → Grows s t
      → has t c.identity ≡ true
      → Fresh t cs u
      → Fresh s (c ∷ cs) u

pub Grows-refl : (s : List String) → Grows s s
Grows-refl s = record { at = λ id h. h }

pub Grows-trans : {s t u : List String} → Grows s t → Grows t u → Grows s u
Grows-trans g h = record { at = λ id k. h.at id (g.at id k) }

not_seen_before :
    {s t : List String} (id : String) → Grows s t → has t id ≡ false → has s id ≡ false
not_seen_before {s} {t} id g h = ground (arith, g.at id)

pub Fresh-Grows :
    {s t u : List String} {cs : List Candidate} → Grows s t → Fresh t cs u → Fresh s cs u
Fresh-Grows g (stop h) = stop (Grows-trans g h)
Fresh-Grows g (yield_one {c = c} n h k f) =
    yield_one (not_seen_before c.identity g n) (Grows-trans g h) k f

pub Fresh-append :
    {s t u : List String} {cs ds : List Candidate}
    → Fresh s cs t
    → Fresh t ds u
    → Fresh s (cs ++ ds) u
Fresh-append (stop g) f = Fresh-Grows g f
Fresh-append (yield_one n g k e) f = yield_one n g k (Fresh-append e f)

pub Grows-Fresh : {s t : List String} {cs : List Candidate} → Fresh s cs t → Grows s t
Grows-Fresh (stop g) = g
Grows-Fresh (yield_one n g k f) = Grows-trans g (Grows-Fresh f)

abbrev pub IsNewTo : List String → Candidate → Type 0
IsNewTo s c = has s c.identity ≡ false

abbrev pub IsIn : List String → Candidate → Type 0
IsIn s c = has s c.identity ≡ true

All-IsNewTo :
    {s t : List String} (cs : List Candidate) → Grows s t → All (IsNewTo t) cs → All (IsNewTo s) cs
All-IsNewTo [] g a = tt
All-IsNewTo (c ∷ cs) g a = (not_seen_before c.identity g a.0, All-IsNewTo cs g a.1)

pub new_before : {s t : List String} {cs : List Candidate} → Fresh s cs t → All (IsNewTo s) cs
new_before (stop g) = tt
new_before (yield_one {cs = cs} n g k f) = (n, All-IsNewTo cs g (new_before f))

pub seen_after : {s t : List String} {cs : List Candidate} → Fresh s cs t → All (IsIn t) cs
seen_after (stop g) = tt
seen_after (yield_one {c = c} n g k f) = ((Grows-Fresh f).at c.identity k, seen_after f)

-- Two candidates do not have one identity.
abbrev pub Differs : Candidate → Candidate → Type 0
Differs c d = str_eq c.identity d.identity ≡ false

abbrev pub IsDistinct : List Candidate → Type 0
IsDistinct [] = Unit
IsDistinct (c ∷ cs) = All (Differs c) cs × IsDistinct cs

pub Differs-of :
    (s : List String) (c d : Candidate)
    → has s c.identity ≡ true
    → has s d.identity ≡ false
    → Differs c d
Differs-of s c d h k =
    ground (arith, str_eq_iff c.identity d.identity, has_cong s c.identity d.identity)

pub All-Differs :
    (s : List String) (c : Candidate) (ds : List Candidate)
    → has s c.identity ≡ true
    → All (IsNewTo s) ds
    → All (Differs c) ds
All-Differs s c [] h a = tt
All-Differs s c (d ∷ ds) h a = (Differs-of s c d h a.0, All-Differs s c ds h a.1)

pub Fresh-IsDistinct : {s t : List String} {cs : List Candidate} → Fresh s cs t → IsDistinct cs
Fresh-IsDistinct (stop g) = tt
Fresh-IsDistinct (yield_one {t = t} {c = c} {cs = cs} n g k f) =
    (All-Differs t c cs k (new_before f), Fresh-IsDistinct f)
