-- ===== src/Call/Laws/Timed.antt =====
-- What the call seam holds out to be timed, and that something is left to be graded.
use frontier_refactor_factor.Prelude.{
  ℕ, ◌-◌, ◌≡◌, ◌<◌, refl, ap, String, Bool, true, false, not, List, [], ◌∷◌, map, if◌then◌else◌,
  arith, ltb, leb, length, drop, is_nil, select, has, unique, unique-select, has-select, first_left,
  drop-has, length-map, eq_string, str_eq, str_eq_iff, Bool-cases, inl, inr,
}
use frontier_refactor_factor.Call.{Expectation}
use frontier_refactor_factor.Call.Corpus.{Observed, pick_timed, last, min}

abbrev pub ids : List Expectation → List String
ids = map (λ e. e.probe_id)

abbrev pub observed_ids : Observed → List String
observed_ids = map (λ (pid, runs). pid)

-- Something is not held out.
pub record Leaves (xs timed : List String) : Type 0 where
  pub one : String
  pub listed : has xs one ≡ true
  pub untimed : has timed one ≡ false

Leaves-drop :
    (n : ℕ) (x : String) (xs : List String)
    → unique (x ∷ xs) ≡ true
    → 0 < n
    → Leaves (x ∷ xs) (drop n (x ∷ xs))
Leaves-drop n x xs u h = record {
  one = x;
  listed = ground (arith, str_eq_iff x x);
  untimed = first_left n x xs u h;
}

Leaves-none : (x : String) (xs : List String) → Leaves (x ∷ xs) []
Leaves-none x xs = record {
  one = x;
  listed = ground (arith, str_eq_iff x x);
  untimed = ground arith;
}

-- The last of a list, and fewer than there are, are never all of them.
Leaves-last : (n : ℕ) (xs : List String) → unique xs ≡ true → n < length xs → Leaves xs (last n xs)
Leaves-last n [] u h = elim h [ ]
Leaves-last n (x ∷ xs) u h = Leaves-drop (length (x ∷ xs) - n) x xs u (omega (arith, h))

Leaves-if :
    (b : Bool) (xs ys zs : List String)
    → (b ≡ true → Leaves xs ys)
    → (b ≡ false → Leaves xs zs)
    → Leaves xs (if b then ys else zs)
Leaves-if true xs ys zs h k = h refl
Leaves-if false xs ys zs h k = k refl

Leaves-more :
    (p : String → Bool) (xs timed : List String) → Leaves (select p xs) timed → Leaves xs timed
Leaves-more p xs timed l = record {
  one = l.one;
  listed = ground (arith, l.listed, has-select p xs l.one);
  untimed = l.untimed;
}

some_of : (xs : List String) → is_nil xs ≡ false → Leaves xs []
some_of [] h = ground (arith, h)
some_of (x ∷ xs) h = Leaves-none x xs

ids_nil : (es : List Expectation) → is_nil es ≡ false → is_nil (ids es) ≡ false
ids_nil [] h = h
ids_nil (e ∷ es) h = refl

pub pick_timed-Leaves :
    (es : List Expectation) (answered : List String)
    → unique (ids es) ≡ true
    → is_nil es ≡ false
    → Leaves (ids es) (pick_timed es 3 answered)
unfolding pick_timed
pick_timed-Leaves es [] u h =
    Leaves-if (ltb 3 (length es)) (ids es) (last 3 (ids es)) []
      (λ b.
        Leaves-last 3 (ids es) u
          (ground (arith, b, length-map (λ (e : Expectation). e.probe_id) es)))
      (λ b. some_of (ids es) (ids_nil es h))
pick_timed-Leaves es (a ∷ answered) u h =
    let is_answered = λ (p : String). has (a ∷ answered) p in
    let usable = select is_answered (ids es) in
    let available = length usable - 1 in
    Leaves-if (leb available 0) (ids es) [] (last (min 3 available) usable)
      (λ b. some_of (ids es) (ids_nil es h))
      (λ b. Leaves-more is_answered (ids es) (last (min 3 available) usable) (
        Leaves-last (min 3 available) usable (unique-select is_answered (ids es) u)
          (ground (arith, b))))

pub pick_timed-answered :
    (es : List Expectation) (answered : List String) (pid : String)
    → is_nil answered ≡ false
    → has (pick_timed es 3 answered) pid ≡ true
    → has answered pid ≡ true
unfolding pick_timed
pick_timed-answered es [] pid h m = ground (arith, h)
pick_timed-answered es (a ∷ answered) pid h m =
    let is_answered = λ (p : String). has (a ∷ answered) p in
    let usable = select is_answered (ids es) in
    let available = length usable - 1 in
    elim (Bool-cases (leb available 0)) [
      | inl b ↦ ground (arith, b, m)
      | inr b ↦
          let k = drop-has (length usable - min 3 available) usable pid (ground (arith, b, m)) in
          ground (arith, k, has-select is_answered (ids es) pid)
    ]

abbrev pub untimed_of : List String → List Expectation → List Expectation
untimed_of timed = select λ e. not (has timed e.probe_id)

pub kept_some :
    (timed : List String) (es : List Expectation) (one : String)
    → has (ids es) one ≡ true
    → has timed one ≡ false
    → is_nil (untimed_of timed es) ≡ false
kept_some timed [] one m n = ground (arith, m)
kept_some timed (e ∷ es) one m n = elim (Bool-cases (str_eq one e.probe_id)) [
  | inl q ↦
      let same = ap (λ p. has timed p) ((str_eq_iff one e.probe_id).0 q) in ground (arith, same, n)
  | inr q ↦ ground (arith, kept_some timed es one (ground (arith, m, q)) n)
]
