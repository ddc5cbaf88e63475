-- ===== src/Process/Workload.antt =====
-- frf/observe/process/workload.py: which steps do enough to be timed. `is_digit` is `str.isdigit`,
-- which reads the Unicode tables.
use Prim.Native.Char.{code}
use frontier_refactor_factor.Prelude.{
  ℕ, suc, String, ◌<>◌, Bool, true, false, not, ◌&&◌, ◌||◌, Option, none, some, List, [], ◌∷◌, ◌++◌,
  if◌then◌else◌, ◌==◌, ltb, length, take, drop, is_nil, any, has, find, get_elem?, eq_string,
  str_eq, has_text, pos, str_int,
}
use frontier_refactor_factor.Process.{ChannelExpectation, Expectation, digest_text}
use frontier_refactor_factor.Process.Corpus.{Step, Scenario}

-- `_CONTROL`
abbrev pub control_words : List String
control_words = "--help" ∷ "-h" ∷ "--version" ∷ "-V" ∷ "help" ∷ "version" ∷ []

-- `arg.startswith('-')`
abbrev pub starts_minus : String → Bool
starts_minus String.[] = false
starts_minus (String.◌∷◌ c s) = code c == 45

-- `' '.join(words)`
abbrev pub join_words : List String → String
join_words [] = ""
join_words (w ∷ []) = w
join_words (w ∷ v ∷ ws) = w <> (" " <> join_words (v ∷ ws))

abbrev pub family_words : (String → Bool) → List String → List String
family_words stops [] = []
family_words stops (a ∷ args) =
    let rest = family_words stops args in if stops a then [] else a ∷ rest

abbrev pub or_direct : List String → String
or_direct [] = "direct-input"
or_direct (w ∷ ws) = if str_eq (join_words (w ∷ ws)) "" then "direct-input" else join_words (w ∷ ws)

abbrev pub is_input : Option String → String → Bool
is_input none a = false
is_input (some path) a = str_eq a path

-- `none` stands for the IndexError of a scenario without steps.
unfoldable pub command_family : (String → Bool) → List Step → Option String → Option String
command_family is_digit [] input_path = none
command_family is_digit (step ∷ steps) input_path = some (
    or_direct (
      family_words
        (λ a.
          is_input input_path a
          || (starts_minus a
              || (is_digit a || (has_text a "/" || (has_text a "." || has_text a " ")))))
        (take 2 (drop 1 step.argv))))

-- `args[1:args.index("--")] if "--" in args else args[1:]`, of `args[1:]`
abbrev pub options_of : List String → List String
options_of [] = []
options_of (a ∷ args) = let rest = options_of args in if str_eq a "--" then [] else a ∷ rest

-- `options == ["-v"]`
abbrev pub is_short_version : List String → Bool
is_short_version (a ∷ []) = str_eq a "-v"
is_short_version _ = false

unfoldable pub control_step : List String → Bool
control_step [] = false
control_step (a ∷ args) =
    let options = options_of args in
    str_eq a "{PROGRAM}" && (is_short_version options || any (λ o. has control_words o) options)

abbrev pub Signature : Type 0
Signature = List (String × ℕ)

abbrev pub signature_eq : Signature → Signature → Bool
signature_eq [] [] = true
signature_eq ((s, m) ∷ xs) ((t, n) ∷ ys) = str_eq s t && (m == n && signature_eq xs ys)
signature_eq _ _ = false

abbrev pub mark_of : ChannelExpectation → String × ℕ
mark_of rule = (rule.digest, rule.line_count)

abbrev is_whole : ChannelExpectation → Bool
is_whole rule = rule.graded && is_nil rule.masked

unfoldable pub output_signature : Expectation → Option Signature
output_signature e =
    if not (is_whole e.exit_code && (is_whole e.stdout && is_whole e.stderr))
    then none
    else if not (ltb 0 e.stdout.line_count || ltb 0 e.stderr.line_count)
    then none
    else some (mark_of e.exit_code ∷ mark_of e.stdout ∷ mark_of e.stderr ∷ [])

abbrev pub add_signature : Option Signature → List Signature → List Signature
add_signature none rest = rest
add_signature (some s) rest = s ∷ rest

-- `output_signature(rules[index])`; a step beyond the rules has none
abbrev pub signature_at : Option Expectation → Option Signature
signature_at none = none
signature_at (some e) = output_signature e

unfoldable pub scenario_signatures : List Step → List Expectation → ℕ → List Signature
unfolding control_step output_signature
scenario_signatures [] rules i = []
scenario_signatures (step ∷ steps) rules i =
    let rest = scenario_signatures steps rules (suc i) in
    if control_step step.argv then add_signature (signature_at (get_elem? rules i)) rest else rest

abbrev pub rules_of : List (String × List Expectation) → String → List Expectation
rules_of rules pid = elim (find pid rules) [ some es ↦ es | none ↦ [] ]

-- `control_output_signatures`
unfoldable pub control_signatures :
    List Scenario → List (String × List Expectation) → List Signature
unfolding scenario_signatures
control_signatures [] rules = []
control_signatures (s ∷ scenarios) rules =
    scenario_signatures s.steps (rules_of rules s.probe_id) 0 ++ control_signatures scenarios rules

-- The truth value of a text that may be absent.
abbrev pub is_given : Option String → Bool
is_given none = false
is_given (some s) = not (str_eq s "")

-- Whether `timing_steps` selects the step.
unfoldable pub is_timing_step : Option String → Step → Bool
unfolding control_step
is_timing_step fixture step = elim step.argv [
  | [] ↦ false
  | a ∷ args ↦
      str_eq a "{PROGRAM}"
      && (not (control_step (a ∷ args))
          && (ltb 1 (length (a ∷ args)) || (is_given step.stdin || is_given fixture)))
]

abbrev pub is_control_output : List Signature → Option Signature → Bool
is_control_output controls none = false
is_control_output controls (some s) = any (signature_eq s) controls

module _ (sha : String → String) where
  abbrev pub succeeds : ChannelExpectation → Bool
  succeeds rule =
      rule.graded
      && (str_eq rule.digest (digest_text sha (str_int (pos 0)))
          && (rule.line_count == 1 && is_nil rule.masked))

  abbrev pub is_eligible : List Signature → Option Expectation → Bool
  is_eligible controls none = false
  is_eligible controls (some e) =
      not (is_control_output controls (output_signature e)) && succeeds e.exit_code

  unfoldable pub eligible_from :
      Option String → List Signature → List Expectation → ℕ → List Step → List ℕ
  unfolding is_timing_step output_signature digest_text str_int
  eligible_from fixture controls rules i [] = []
  eligible_from fixture controls rules i (step ∷ steps) =
      let rest = eligible_from fixture controls rules (suc i) steps in
      if is_timing_step fixture step && is_eligible controls (get_elem? rules i)
      then i ∷ rest
      else rest

  unfoldable pub eligible_timing_steps : Scenario → List Expectation → List Signature → List ℕ
  unfolding eligible_from
  eligible_timing_steps s rules controls = eligible_from s.fixture controls rules 0 s.steps
