-- ===== src/Process/Laws/Lines.antt =====
-- Texts of lines: at one number of lines, the text decides the lines.
use Prim.Native.String.append
use Prim.Native.Char.{code, nul}
use frontier_refactor_factor.Prelude.{
  ℕ, get_elem?, zero, suc, ◌+◌, ◌≡◌, refl, ap, sym, ◌∙◌, String, ◌<>◌, Bool, true, false, ◌||◌,
  List, [], ◌∷◌, some, ◌==◌, if◌then◌else◌, arith, length, All, has, eq_nat, Bool-cases, inl, inr,
}
use frontier_refactor_factor.Process.{join_lines, kept_lines, newline}

-- `"\n" in s`
abbrev pub has_newline : String → Bool
has_newline String.[] = false
has_newline (String.◌∷◌ c s) = code c == 10 || has_newline s

-- A line of `splitlines` has no newline.
abbrev pub IsLine : String → Type 0
IsLine s = has_newline s ≡ false

pub cut_first :
    (s t x y : String)
    → IsLine s
    → IsLine t
    → s <> String.◌∷◌ newline x ≡ t <> String.◌∷◌ newline y
    → (s ≡ t) × (x ≡ y)
cut_first String.[] String.[] x y h k e =
    let f = sym (append.nil (String.◌∷◌ newline x)) ∙ e ∙ append.nil (String.◌∷◌ newline y) in
    (refl, cc f)
cut_first String.[] (String.◌∷◌ d t) x y h k e =
    let f = sym (append.nil (String.◌∷◌ newline x)) ∙ e ∙ append.cons d t (String.◌∷◌ newline y) in
    let p : newline ≡ d = cc f in let q = ap code p in ground (arith, q, k)
cut_first (String.◌∷◌ c s) String.[] x y h k e =
    let f = sym (append.cons c s (String.◌∷◌ newline x)) ∙ e ∙ append.nil (String.◌∷◌ newline y) in
    let p : c ≡ newline = cc f in let q = ap code p in ground (arith, q, h)
cut_first (String.◌∷◌ c s) (String.◌∷◌ d t) x y h k e =
    let f =
      sym (append.cons c s (String.◌∷◌ newline x)) ∙ e ∙ append.cons d t (String.◌∷◌ newline y) in
    let (p, q) = cut_first s t x y (ground (arith, h)) (ground (arith, k)) (cc f) in (cc (p, f), q)

pub join_lines-injective :
    (xs ys : List String)
    → length xs ≡ length ys
    → All IsLine xs
    → All IsLine ys
    → join_lines xs ≡ join_lines ys
    → xs ≡ ys
join_lines-injective [] [] n h k e = refl
join_lines-injective [] (y ∷ ys) n h k e = ground arith
join_lines-injective (x ∷ xs) [] n h k e = ground arith
join_lines-injective (x ∷ []) (y ∷ []) n h k e = ap (λ s. s ∷ []) e
join_lines-injective (x ∷ []) (y ∷ z ∷ ys) n h k e = ground arith
join_lines-injective (x ∷ z ∷ xs) (y ∷ []) n h k e = ground arith
join_lines-injective (x ∷ z ∷ xs) (y ∷ w ∷ ys) n h k e =
    let (p, q) = cut_first x y (join_lines (z ∷ xs)) (join_lines (w ∷ ys)) h.0 k.0 e in
    let r = join_lines-injective (z ∷ xs) (w ∷ ys) (omega arith) h.1 k.1 q in cc (p, r)

pub kept_lines-IsLine :
    (masked : List ℕ) (i : ℕ) (lines : List String)
    → All IsLine lines
    → All IsLine (kept_lines masked i lines)
kept_lines-IsLine masked i [] h = tt
kept_lines-IsLine masked i (s ∷ lines) (h, k) = (
  elim (has masked i) as (λ b. IsLine (if b then String.◌∷◌ nul String.[] else s)) [
    | true ↦ refl
    | false ↦ h
  ],
  kept_lines-IsLine masked (suc i) lines k,
)

pub length-kept_lines :
    (masked : List ℕ) (i : ℕ) (lines : List String)
    → length (kept_lines masked i lines) ≡ length lines
length-kept_lines masked i [] = refl
length-kept_lines masked i (s ∷ lines) = ap suc (length-kept_lines masked (suc i) lines)

has_cong : (masked : List ℕ) (i j : ℕ) → i ≡ j → has masked i ≡ has masked j
has_cong masked i j e = ap (has masked) e

same_head :
    (b : Bool) (x y : String) (xs ys : List String)
    → b ≡ false
    → (if b then String.◌∷◌ nul String.[] else x) ∷ xs
      ≡ (if b then String.◌∷◌ nul String.[] else y) ∷ ys
    → x ≡ y
same_head true x y xs ys m e = ground arith
same_head false x y xs ys m e = cc e

-- The lines that are kept agree where nothing is masked.
pub kept_lines-get_elem? :
    (masked : List ℕ) (i j : ℕ) (xs ys : List String)
    → kept_lines masked i xs ≡ kept_lines masked i ys
    → has masked (i + j) ≡ false
    → get_elem? xs j ≡ get_elem? ys j
kept_lines-get_elem? masked i j [] [] e h = refl
kept_lines-get_elem? masked i j [] (y ∷ ys) e h = ground arith
kept_lines-get_elem? masked i j (x ∷ xs) [] e h = ground arith
kept_lines-get_elem? masked i zero (x ∷ xs) (y ∷ ys) e h =
    let m = has_cong masked i (i + 0) (omega arith) ∙ h in
    ap some (
      same_head (has masked i) x y (kept_lines masked (suc i) xs) (kept_lines masked (suc i) ys) m
        e)
kept_lines-get_elem? masked i (suc j) (x ∷ xs) (y ∷ ys) e h =
    kept_lines-get_elem? masked (suc i) j xs ys (cc e)
      (has_cong masked (suc i + j) (i + suc j) (omega arith) ∙ h)

pub kept_lines-agree :
    (masked : List ℕ) (i : ℕ) (xs ys : List String)
    → length xs ≡ length ys
    → ((j : ℕ) → has masked (i + j) ≡ false → get_elem? xs j ≡ get_elem? ys j)
    → kept_lines masked i xs ≡ kept_lines masked i ys
kept_lines-agree masked i [] [] n h = refl
kept_lines-agree masked i [] (y ∷ ys) n h = ground arith
kept_lines-agree masked i (x ∷ xs) [] n h = ground arith
kept_lines-agree masked i (x ∷ xs) (y ∷ ys) n h =
    let rest =
      kept_lines-agree masked (suc i) xs ys (omega (arith, n))
        λ j m. h (suc j) (has_cong masked (i + suc j) (suc i + j) (omega arith) ∙ m) in
    elim (Bool-cases (has masked i)) [
      | inl t ↦ rw (t, rest) refl
      | inr f ↦
          let first = h 0 (has_cong masked (i + 0) i (omega arith) ∙ f) in
          let same : x ≡ y = cc first in
          rw (f, rest) (ap (λ s. s ∷ kept_lines masked (suc i) ys) same)
    ]
