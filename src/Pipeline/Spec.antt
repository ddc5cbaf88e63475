-- ===== src/Pipeline/Spec.antt =====
-- frf/core/scale.py and `_specify` of frf/core/pipeline.py: what a scale is asked for a candidate,
-- and what is refused of its answer.
use Prim.Native.Char.{code}
use frontier_refactor_factor.Prelude.{
  ℕ, ◌+◌, String, Bool, true, false, not, ◌&&◌, ◌||◌, Option, none, some, List, [], ◌∷◌, leb, ◌==◌,
  if◌then◌else◌, is_nil, reverse, str_eq, str, lit, fmt,
}
use frontier_refactor_factor.Exec.{
  class_name, is_exception, material, factory, Raised, refusal, error, Result, ok, Exec, lift,
  attempt, refuse, ◌>>=◌,
}

pub data TaskForm : Type 0 where
  inplace cross_language : TaskForm

pub record Candidate : Type 0 where
  pub identity : String
  pub scale : String
  pub language : String
  pub source : String

pub record Spec : Type 0 where
  pub name : String
  pub scale : String
  pub language : String
  pub description : String
  pub invoke : List String
  pub target_language : String
  pub task_form : TaskForm

-- What `scale.specify` returns: a `Spec`, or something of another type.
pub data Specified : Type 0 where
  a_spec : Spec → Specified
  not_a_spec : String → Specified

-- The code points of a text. `String` has its own `[]` and `∷`.
abbrev pub codes : String → List ℕ
codes String.[] = []
codes (String.◌∷◌ c s) = code c ∷ codes s

-- The ASCII part of `str.isspace` and `str.lower`.
abbrev is_space : ℕ → Bool
is_space c = (leb 9 c && leb c 13) || (leb 28 c && leb c 32)

abbrev lower : ℕ → ℕ
lower c = if leb b'A' c && leb c b'Z' then c + 32 else c

abbrev lower_all : List ℕ → List ℕ
lower_all [] = []
lower_all (c ∷ cs) = lower c ∷ lower_all cs

abbrev skip_spaces : List ℕ → List ℕ
skip_spaces [] = []
skip_spaces (c ∷ cs) = let rest = skip_spaces cs in if is_space c then rest else c ∷ cs

-- `s.lower()`
unfoldable pub lowered : String → List ℕ
lowered s = lower_all (codes s)

-- `s.strip().lower()`
unfoldable pub normal : String → List ℕ
normal s = lower_all (reverse (skip_spaces (reverse (skip_spaces (codes s)))))

abbrev pub same_codes : List ℕ → List ℕ → Bool
same_codes [] [] = true
same_codes (a ∷ as') (b ∷ bs) = a == b && same_codes as' bs
same_codes _ _ = false

abbrev is_cross : TaskForm → Bool
is_cross cross_language = true
is_cross inplace = false

abbrev pub has_name : List String → String → Bool
has_name [] n = false
has_name (m ∷ ms) n = str_eq m n || has_name ms n

-- The handler of `except Exception`; `Stage` is an exception too.
unfoldable pub specify_failed : Raised → Raised
specify_failed (refusal s) = refusal (record {
  stage = "specify";
  reason = "could-not-specify";
  fault = material;
  detail = fmt "Stage: %s/%s" (str s.stage ∷ str s.reason ∷ []);
})
specify_failed (error e) =
    if is_exception e.class
    then refusal (record {
      stage = "specify";
      reason = "could-not-specify";
      fault =
          if has_name ("ModelError" ∷ "TransportError" ∷ []) (class_name e.class)
          then factory
          else material;
      detail = fmt "%s: %s" (str (class_name e.class) ∷ str e.text ∷ []);
    })
    else error e

-- The checks on the answer.
unfoldable pub check_spec : String → Specified → Result Spec
check_spec scale_class (not_a_spec type_name) =
    refuse "specify" "not-a-spec" factory
      (fmt "%s.specify returned %s" (str scale_class ∷ str type_name ∷ []))
check_spec scale_class (a_spec spec) =
    let source = normal spec.language in
    let target = normal spec.target_language in
    if is_cross spec.task_form && (is_nil target || same_codes target source)
    then refuse "specify" "invalid-language-pair" material
        (lit "cross-language task requires a distinct target language")
    else if not (is_cross spec.task_form) && (not (is_nil target) && not (same_codes target source))
    then refuse "specify" "conflicting-task-form" factory
        (lit "inplace task cannot change its language")
    else if is_nil spec.invoke
    then refuse "specify" "nothing-to-invoke" material
        (lit "the specification names no way to start the subject")
    else ok spec

-- What the pipeline reads of a scale when it specifies: `_task_form`, whether `specify` declares
-- that keyword, and the call itself.
pub record Specifier (W : Type 0) : Type 0 where
  pub scale_class : String
  pub task_form : Option TaskForm
  pub accepts_task_form : Bool
  pub specify_with : Candidate → Option TaskForm → Exec W Specified

-- The keyword that is forwarded.
abbrev forwarded : Option TaskForm → Bool → Option TaskForm
forwarded none accepts = none
forwarded (some f) accepts = if accepts then some f else none

unfoldable pub specify : {W : Type 0} → Specifier W → Candidate → Exec W Spec
unfolding specify_failed check_spec
specify s candidate = do
  answer ←
      attempt specify_failed (s.specify_with candidate (forwarded s.task_form s.accepts_task_form))
  lift (check_spec s.scale_class answer)
