-- ===== src/Call/Laws/Sessions.antt =====
-- Every call of a batch is answered, and in order.
use frontier_refactor_factor.Prelude.{
  ℕ, zero, suc, ◌+◌, ◌≡◌, ◌≤◌, refl, ap, sym, ◌∙◌, String, Bool, true, false, List, [], ◌∷◌, ◌++◌,
  map, take, drop, length, if◌then◌else◌, arith,
}
use frontier_refactor_factor.Exec.{Exec, Exn, Result, ok, err, refusal, error, pure}
use frontier_refactor_factor.Exec.Ensures.{
  Ensures, Ensures-pure, Ensures-bind, Ensures-skip, Ensures-if, ok-injective,
}
use frontier_refactor_factor.Call.{Observation}
use frontier_refactor_factor.Call.Session.{
  Reply, number_from, answers_of, all_refused, settle, ask_chunk, chunks, call_many,
  is_subject_failed, clip_text, late_text,
}

-- `n` numbers after `i`
abbrev pub after : ℕ → ℕ → List ℕ
after i zero = []
after i (suc n) = suc i ∷ after (suc i) n

abbrev pub identities : List (ℕ × Observation) → List ℕ
identities = map (λ (i, o). i)

after-append : (i m n : ℕ) → after i (m + n) ≡ after i m ++ after (i + m) n
after-append i zero n =
    let e : 0 + n ≡ n = omega arith in
    let f : i ≡ i + 0 = omega arith in ap (after i) e ∙ ap (λ j. after j n) f
after-append i (suc m) n =
    let e : suc m + n ≡ suc (m + n) = omega arith in
    let f : suc i + m ≡ i + suc m = omega arith in
    ap (after i) e
    ∙ ap (λ rest. suc i ∷ rest) (after-append (suc i) m n)
    ∙ ap (λ j. suc i ∷ (after (suc i) m ++ after j n)) f

identities-append :
    (xs ys : List (ℕ × Observation)) → identities (xs ++ ys) ≡ identities xs ++ identities ys
identities-append [] ys = refl
identities-append (x ∷ xs) ys = ap (λ rest. x.0 ∷ rest) (identities-append xs ys)

module _ {Args : Type 0} where
  length-number_from : (i : ℕ) (args : List Args) → length (number_from i args) ≡ length args
  unfolding number_from
  length-number_from i [] = refl
  length-number_from i (a ∷ args) = ap suc (length-number_from (suc i) args)

  identities-answers_of :
      (replies : List (ℕ × Reply)) (i : ℕ) (args : List Args)
      → identities (answers_of replies (number_from i args)) ≡ after i (length args)
  unfolding number_from
  identities-answers_of replies i [] = refl
  identities-answers_of replies i (a ∷ args) =
      ap (λ rest. suc i ∷ rest) (identities-answers_of replies (suc i) args)

  identities-all_refused :
      (text : String) (i : ℕ) (args : List Args)
      → identities (all_refused text (number_from i args)) ≡ after i (length args)
  unfolding number_from
  identities-all_refused text i [] = refl
  identities-all_refused text i (a ∷ args) =
      ap (λ rest. suc i ∷ rest) (identities-all_refused text (suc i) args)

  length-take-drop :
      (n : ℕ) (args : List Args) → length (take n args) + length (drop n args) ≡ length args
  length-take-drop zero args = omega arith
  length-take-drop (suc n) [] = omega arith
  length-take-drop (suc n) (a ∷ args) = omega (arith, length-take-drop n args)

  joined :
      (i : ℕ) (here rest : List (ℕ × Observation)) (part left args : List Args) (n : ℕ)
      → identities here ≡ after i (length part)
      → identities rest ≡ after (i + n) (length left)
      → n ≡ length part
      → length part + length left ≡ length args
      → identities (here ++ rest) ≡ after i (length args)
  joined i here rest part left args n p q e f =
      let g : after (i + n) (length left) ≡ after (i + length part) (length left) =
        ap (λ k. after (i + k) (length left)) e in
      identities-append here rest
      ∙ ap (λ xs. xs ++ identities rest) p
      ∙ ap (λ xs. after i (length part) ++ xs) (q ∙ g)
      ∙ sym (after-append i (length part) (length left))
      ∙ ap (after i) f

  module _ {W : Type 0} (late : Exec W Bool)
      (ask : List (ℕ × Args) → Exec W (List (ℕ × Reply))) where
    failed :
        (b : Bool) (i : ℕ) (args : List Args) (x : Exn) (xs : List (ℕ × Observation))
        → (if b
            then ok (all_refused (clip_text 600 x.text) (number_from i args))
            else err (error x))
          ≡ ok xs
        → identities xs ≡ after i (length args)
    failed true i args x xs e =
        ap identities (sym (ok-injective e)) ∙ identities-all_refused (clip_text 600 x.text) i args
    failed false i args x xs e = cc

    settled :
        (i : ℕ) (args : List Args) (r : Result (List (ℕ × Reply))) (xs : List (ℕ × Observation))
        → settle late ask (number_from i args) r ≡ ok xs
        → identities xs ≡ after i (length args)
    settled i args (ok replies) xs e =
        ap identities (sym (ok-injective e)) ∙ identities-answers_of replies i args
    settled i args (err (refusal s)) xs e = cc
    settled i args (err (error x)) xs e = failed (is_subject_failed x.class) i args x xs e

    chunk-answers :
        (i : ℕ) (args : List Args)
        → Ensures
            (λ xs. identities xs ≡ after i (length args))
            (ask_chunk late ask (number_from i args))
    chunk-answers i args = record {
      at = λ w xs e. let (r, w') = ask (number_from i args) w in settled i args r xs e;
    }

    chunks-answer :
        (fuel i : ℕ) (args : List Args)
        → length args ≤ fuel
        → Ensures (λ xs. identities xs ≡ after i (length args)) (chunks late ask fuel i args)
    unfolding chunks
    chunks-answer fuel i [] h = Ensures-pure [] refl
    chunks-answer zero i (a ∷ args) h = elim h [ ]
    chunks-answer (suc fuel) i (a ∷ args) h =
        let part = take 16 (a ∷ args) in
        let left = drop 16 (a ∷ args) in
        let requests = number_from i part in
        let sizes = length-take-drop 16 (a ∷ args) in
        let shorter = length-take-drop 15 args in
        Ensures-skip late _ λ stop.
          Ensures-bind
            (if stop then pure (all_refused late_text requests) else ask_chunk late ask requests) _
            (Ensures-if stop (λ _. Ensures-pure _ (identities-all_refused late_text i part))
              (λ _. chunk-answers i part))
            λ here p.
              Ensures-bind (chunks late ask fuel (i + length requests) left) _
                (chunks-answer fuel (i + length requests) left (omega (arith, h, shorter)))
                λ rest q. Ensures-pure (here ++ rest) (
                  joined i here rest part left (a ∷ args) (length requests) p q
                    (length-number_from i part) sizes)

    -- Each of the calls is answered once, in the order of the items, whatever the subject replies
    -- and however late it is.
    pub call_many-answers :
        (i : ℕ) (args : List Args)
        → Ensures (λ xs. identities xs ≡ after i (length args)) (call_many late ask i args)
    unfolding call_many
    call_many-answers i args = chunks-answer (length args) i args (omega arith)
