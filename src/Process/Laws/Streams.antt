-- ===== src/Process/Laws/Streams.antt =====
-- What a frozen channel of text holds a submission to.
use frontier_refactor_factor.Prelude.{
  ℕ, get_elem?, zero, suc, ◌+◌, ◌≡◌, refl, ap, sym, subst, ◌∙◌, String, Bool, true, false, not,
  ◌&&◌, List, [], ◌∷◌, map, none, ◌==◌, ltb, leb, if◌then◌else◌, arith, length, append_cancel, All,
  has, distinct, eq_nat, eq_string, eq_option, Bool-cases, inl, inr, str_eq, str_eq_iff,
  distinct-one, all_one, ◌≤◌,
}
use frontier_refactor_factor.Process.{
  Stream, ChannelExpectation, kept_lines, join_lines, varies, varying, freeze_stream, first_digest,
  expects, digest_stream, digest_text, pop_count,
}
use frontier_refactor_factor.Process.Laws.Lines.{
  IsLine, join_lines-injective, kept_lines-IsLine, length-kept_lines, kept_lines-get_elem?,
  kept_lines-agree,
}

-- Every later run has the line of the first there.
abbrev pub Settled : Stream → List Stream → ℕ → Type 0
Settled r rs i = All (λ s. get_elem? s.lines i ≡ get_elem? r.lines i) rs

-- The contract of a channel, without digests and masks: as many lines as the runs, and each line
-- on which the runs agree.
pub record Reproduces (r : Stream) (rs : List Stream) (a : Stream) : Type 0 where
  pub same_count : length a.lines ≡ length r.lines
  pub same_lines : (i : ℕ) → Settled r rs i → get_elem? a.lines i ≡ get_elem? r.lines i

module _ {B : Type 0} (f : Stream → B) (b : B) where
  pub All-map_to : (rs : List Stream) → All (λ s. f s ≡ b) rs → All (λ y. y ≡ b) (map f rs)
  All-map_to [] h = tt
  All-map_to (r ∷ rs) (h, k) = (h, All-map_to rs k)

  pub All-map_from : (rs : List Stream) → All (λ y. y ≡ b) (map f rs) → All (λ s. f s ≡ b) rs
  All-map_from [] h = tt
  All-map_from (r ∷ rs) (h, k) = (h, All-map_from rs k)

pub steady-Settled :
    (r : Stream) (rs : List Stream) (i : ℕ) → varies (r ∷ rs) i ≡ false → Settled r rs i
unfolding varies
steady-Settled r rs i h =
    All-map_from (λ s. get_elem? s.lines i) (get_elem? r.lines i) rs
      (all_one (get_elem? r.lines i) (map (λ s. get_elem? s.lines i) rs) (ground (arith, h)))

pub Settled-steady :
    (r : Stream) (rs : List Stream) (i : ℕ) → Settled r rs i → varies (r ∷ rs) i ≡ false
unfolding varies
Settled-steady r rs i h =
    ap (λ xs. ltb 1 (length xs))
      (distinct-one (get_elem? r.lines i) (map (λ s. get_elem? s.lines i) rs)
        (All-map_to (λ s. get_elem? s.lines i) (get_elem? r.lines i) rs h))

pub has-varying :
    (runs : List Stream) (j n i : ℕ)
    → has (varying runs j n) i ≡ (leb j i && (ltb i (j + n) && varies runs i))
unfolding varying
has-varying runs j zero i = ground arith
has-varying runs j (suc n) i = ground (arith, has-varying runs (suc j) n i)

-- Of two refusals and one expectation, what is graded is the expectation.
pick_graded :
    (b c : Bool) (x y z : ChannelExpectation)
    → x.graded ≡ false
    → y.graded ≡ false
    → (if b then x else if c then y else z).graded ≡ true
    → (b ≡ false) × ((if b then x else if c then y else z) ≡ z)
pick_graded true c x y z hx hy h = ground (arith, hx, h)
pick_graded false true x y z hx hy h = ground (arith, hy, h)
pick_graded false false x y z hx hy h = (refl, refl)

-- What a graded channel records of the runs.
pub record Frozen (sha : String → String) (r : Stream) (rs : List Stream) (e : ChannelExpectation)
    : Type 0 where
  pub same_counts : All (λ s. length s.lines ≡ length r.lines) rs
  pub counted : e.line_count ≡ length r.lines
  pub positions : e.masked ≡ varying (r ∷ rs) 0 (length r.lines)
  pub fingerprint : e.digest ≡ digest_stream sha r e.masked

module _ (sha : String → String) where
  Frozen-at :
      (r : Stream) (rs : List Stream) (n : ℕ)
      → All (λ s. length s.lines ≡ length r.lines) rs
      → n ≡ length r.lines
      → Frozen sha r rs
          (expects (digest_stream sha r (varying (r ∷ rs) 0 n)) n (varying (r ∷ rs) 0 n))
  Frozen-at r rs n h e = record {
    same_counts = h;
    counted = e;
    positions = ap (varying (r ∷ rs) 0) e;
    fingerprint = refl;
  }

  pub freeze_stream-Frozen :
      (r : Stream) (rs : List Stream)
      → (freeze_stream sha (r ∷ rs)).graded ≡ true
      → Frozen sha r rs (freeze_stream sha (r ∷ rs))
  unfolding freeze_stream first_digest
  freeze_stream-Frozen r rs h =
      let counts = distinct (map (λ s. length s.lines) (r ∷ rs)) in
      let n = pop_count counts in
      let masked = varying (r ∷ rs) 0 n in
      let (one, is) =
        pick_graded (ltb 1 (length counts)) (not (n == 0) && length masked == n) _ _
          (expects (digest_stream sha r masked) n masked) refl refl h in
      let same = all_one (length r.lines) (map (λ s. length s.lines) rs) (ground (arith, one)) in
      let single = distinct-one (length r.lines) (map (λ s. length s.lines) rs) same in
      subst (Frozen sha r rs) (sym is) (
        Frozen-at r rs n (All-map_from (λ s. length s.lines) (length r.lines) rs same)
          (ap pop_count single))

pub get_elem?_past : (xs : List String) (i : ℕ) → length xs ≤ i → get_elem? xs i ≡ none
get_elem?_past [] i h = refl
get_elem?_past (x ∷ xs) zero h = ground arith
get_elem?_past (x ∷ xs) (suc i) h = get_elem?_past xs i (omega (arith, h))

module _ (sha : String → String) (r : Stream) (rs : List Stream) where
  masked_at :
      (e : ChannelExpectation) (i : ℕ)
      → Frozen sha r rs e
      → has e.masked i ≡ (ltb i (length r.lines) && varies (r ∷ rs) i)
  masked_at e i f =
      ap (λ ms. has ms i) f.positions ∙ has-varying (r ∷ rs) 0 (length r.lines) i ∙ ground arith

  -- Whoever reproduces a frozen channel passes it.
  pub Reproduces-passes :
      (e : ChannelExpectation) (a : Stream)
      → Frozen sha r rs e
      → Reproduces r rs a
      → ((length a.lines == e.line_count) ≡ true)
        × (str_eq (digest_stream sha a e.masked) e.digest ≡ true)
  unfolding digest_stream
  Reproduces-passes e a f p =
      let agree = kept_lines-agree e.masked 0 a.lines r.lines p.same_count λ j m.
        elim (Bool-cases (ltb j (length r.lines))) [
          | inl t ↦ p.same_lines j (steady-Settled r rs j (ground (arith, m, t, masked_at e j f)))
          | inr t ↦
              get_elem?_past a.lines j (ground (arith, t, p.same_count))
              ∙ sym (get_elem?_past r.lines j (ground (arith, t)))
        ] in
      (
        ground (arith, p.same_count, f.counted),
        (str_eq_iff (digest_stream sha a e.masked) e.digest).1
            (ap (λ ls. digest_text sha (join_lines ls)) agree ∙ sym f.fingerprint),
      )

  -- Whoever passes a frozen channel reproduces it, where no two texts have one digest.
  pub passes-Reproduces :
      (e : ChannelExpectation) (a : Stream)
      → ((s t : String) → sha s ≡ sha t → s ≡ t)
      → All IsLine r.lines
      → All IsLine a.lines
      → Frozen sha r rs e
      → (length a.lines == e.line_count) ≡ true
      → str_eq (digest_stream sha a e.masked) e.digest ≡ true
      → Reproduces r rs a
  unfolding digest_stream digest_text
  passes-Reproduces e a inj hr ha f n d =
      let same_count : length a.lines ≡ length r.lines = ground (arith, n, f.counted) in
      let texts =
        inj (join_lines (kept_lines e.masked 0 a.lines))
          (join_lines (kept_lines e.masked 0 r.lines))
          (append_cancel "sha256:" _ _
            ((str_eq_iff (digest_stream sha a e.masked) e.digest).0 d ∙ f.fingerprint)) in
      let kept =
        join_lines-injective (kept_lines e.masked 0 a.lines) (kept_lines e.masked 0 r.lines)
          (length-kept_lines e.masked 0 a.lines
            ∙ same_count
            ∙ sym (length-kept_lines e.masked 0 r.lines))
          (kept_lines-IsLine e.masked 0 a.lines ha) (kept_lines-IsLine e.masked 0 r.lines hr)
          texts in
      record {
        same_count = same_count;
        same_lines = λ i settled.
            kept_lines-get_elem? e.masked 0 i a.lines r.lines kept
              (ground (arith, masked_at e i f, Settled-steady r rs i settled));
      }
