-- ===== src/Call/Laws/Names.antt =====
-- The names under which answers are kept: those of the numbered probes, each once.
use frontier_refactor_factor.Prelude.{
  ℕ, suc, ◌≡◌, ◌<◌, refl, ap, sym, subst, ◌∙◌, String, ◌<>◌, true, false, Option, none, some, List,
  [], ◌∷◌, map, arith, set, has, unique, eq_string, str_eq, str_eq_iff, padded, padded-injective,
  All-weaken, append_cancel, Bool-cases, inl, inr, All,
}
use frontier_refactor_factor.Call.{Observation}
use frontier_refactor_factor.Call.Corpus.{Observed, append_answer, append_answers, number_inputs}
use frontier_refactor_factor.Call.Laws.Timed.{observed_ids}

named_apart : (i j : ℕ) → i < j → str_eq ("probe-" <> padded i) ("probe-" <> padded j) ≡ false
named_apart i j h = elim (Bool-cases (str_eq ("probe-" <> padded i) ("probe-" <> padded j))) [
  | inl e ↦
      let same = padded-injective i j (
        append_cancel "probe-" (padded i) (padded j)
          ((str_eq_iff ("probe-" <> padded i) ("probe-" <> padded j)).0 e)) in
      let no : ⊥ = omega (arith, same, h) in absurd no
  | inr e ↦ e
]

module _ {Args : Type 0} where
  abbrev pub input_ids : List (String × Args) → List String
  input_ids = map (λ (pid, a). pid)

  number_inputs-fresh :
      (i j : ℕ) (args : List Args)
      → i < j
      → has (input_ids (number_inputs j args)) ("probe-" <> padded i) ≡ false
  unfolding number_inputs
  number_inputs-fresh i j [] h = refl
  number_inputs-fresh i j (a ∷ args) h =
      ground (arith, named_apart i j h, number_inputs-fresh i (suc j) args (omega (arith, h)))

  -- No two probes of a freeze have one name.
  pub number_inputs-unique :
      (i : ℕ) (args : List Args) → unique (input_ids (number_inputs i args)) ≡ true
  unfolding number_inputs
  number_inputs-unique i [] = refl
  number_inputs-unique i (a ∷ args) =
      ground
        (arith, number_inputs-fresh i (suc i) args (omega arith), number_inputs-unique (suc i) args)

names-set :
    (k : String) (os : List Observation) (d : Observed)
    → has (observed_ids d) k ≡ true
    → observed_ids (set k os d) ≡ observed_ids d
names-set k os [] h = ground (arith, h)
names-set k os ((m, b) ∷ d) h = elim (Bool-cases (str_eq m k)) [
  | inl e ↦ rw e refl
  | inr e ↦
      rw e (
        ap (λ ks. m ∷ ks) (names-set k os d (ground (arith, h, e, str_eq_iff m k, str_eq_iff k m))))
]

pub append_answer-names :
    (k : String) (o : Observation) (d : Observed)
    → has (observed_ids d) k ≡ true
    → observed_ids (append_answer k o d) ≡ observed_ids d
unfolding append_answer
append_answer-names k o d h = names-set k _ d h

-- The probes of the items are observed.
abbrev pub Known : {Args : Type 0} → List String → List (String × Args) → Type 0
Known names = All λ (pid, a). has names pid ≡ true

pub append_answers-names :
    {Args : Type 0} (items : List (String × Args)) (os : List Observation) (d : Observed)
    → Known (observed_ids d) items
    → observed_ids (append_answers items os d) ≡ observed_ids d
unfolding append_answers
append_answers-names [] os d h = refl
append_answers-names (i ∷ items) [] d h = refl
append_answers-names ((pid, a) ∷ items) (o ∷ os) d (h, hs) =
    let same = append_answer-names pid o d h in
    append_answers-names items os (append_answer pid o d)
      (subst (λ ns. Known ns items) (sym same) hs)
    ∙ same

-- What was observed is under the names of the probes.
abbrev pub Named : List String → Option Observed → Type 0
Named names none = Unit
Named names (some d) = observed_ids d ≡ names

pub Known-self : {Args : Type 0} (items : List (String × Args)) → Known (input_ids items) items
Known-self [] = tt
Known-self ((pid, a) ∷ items) = (
  ground (arith, str_eq_iff pid pid),
  All-weaken (λ (i, b). has (input_ids items) i ≡ true)
      (λ (i, b). has (pid ∷ input_ids items) i ≡ true) items (λ i h. ground (arith, h))
      (Known-self items),
)
