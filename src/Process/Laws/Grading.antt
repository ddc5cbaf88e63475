-- ===== src/Process/Laws/Grading.antt =====
-- Full marks for a step are exactly what the reference reproduces there.
use frontier_refactor_factor.Prelude.{
  ℕ, ◌≡◌, ◌≤◌, refl, ap, sym, ◌∙◌, String, Bool, true, false, ◌&&◌, List, ◌∷◌, map, ◌==◌,
  if◌then◌else◌, arith, length, append_cancel, All, ℤ, eq_int, str_eq, str_eq_iff, str_int,
  str_int-injective,
}
use frontier_refactor_factor.Process.{
  Stream, Observation, Channel, exit_channel, stdout_channel, stderr_channel, tree_channel,
  channel_of, ChannelExpectation, Expectation, freeze_stream, freeze_exit, freeze_step,
  digest_stream, digest_text, grade_exit, grade_stream, grade_channel,
}
use frontier_refactor_factor.Process.Laws.Lines.{IsLine}
use frontier_refactor_factor.Process.Laws.Streams.{
  Reproduces, freeze_stream-Frozen, Reproduces-passes, passes-Reproduces,
}

-- The contract of a step, by channel.
abbrev pub Reproduced : Observation → List Observation → Observation → Channel → Type 0
Reproduced r rs a exit_channel = a.exit_code ≡ r.exit_code
Reproduced r rs a stdout_channel = Reproduces r.stdout (map (λ o. o.stdout) rs) a.stdout
Reproduced r rs a stderr_channel = Reproduces r.stderr (map (λ o. o.stderr) rs) a.stderr
Reproduced r rs a tree_channel = Reproduces r.tree (map (λ o. o.tree) rs) a.tree

-- What `splitlines` makes of each channel.
abbrev pub HasLines : Observation → Type 0
HasLines o = All IsLine o.stdout.lines × All IsLine o.stderr.lines × All IsLine o.tree.lines

full_if :
    (g test : Bool) {p t : ℕ}
    → p ≡ (if g && test then 1 else 0)
    → t ≡ (if g then 1 else 0)
    → (g ≡ true → test ≡ true)
    → p ≡ t
full_if true test hp ht h = ground (arith, hp, ht, h refl)
full_if false test hp ht h = ground (arith, hp, ht)

if_full :
    (g test : Bool) {p t : ℕ}
    → p ≡ (if g && test then 1 else 0)
    → t ≡ (if g then 1 else 0)
    → p ≡ t
    → g ≡ true
    → test ≡ true
if_full true true hp ht e h = refl
if_full true false hp ht e h = ground (arith, hp, ht, e)
if_full false test hp ht e h = ground (arith, h)

both : {a b : Bool} → (a ≡ true) × (b ≡ true) → (a && b) ≡ true
both h = ground (arith, h)

split_both : (a b : Bool) → (a && b) ≡ true → (a ≡ true) × (b ≡ true)
split_both true b h = (refl, h)
split_both false b h = ground (arith, h)

module _ (sha : String → String) where
  pub exit_marks :
      (step : ℕ) (e : ChannelExpectation) (code : ℤ)
      → ((grade_exit sha step e code).1 ≡ (if e.graded then 1 else 0))
        × ((grade_exit sha step e code).0
            ≡ (if e.graded && str_eq (digest_text sha (str_int code)) e.digest then 1 else 0))
  unfolding grade_exit
  exit_marks step e code = ground arith

  pub stream_marks :
      (step : ℕ) (name : String) (e : ChannelExpectation) (a : Stream)
      → ((grade_stream sha step name e a).1 ≡ (if e.graded then 1 else 0))
        × ((grade_stream sha step name e a).0 ≡ (
            if e.graded
              && (length a.lines == e.line_count && str_eq (digest_stream sha a e.masked) e.digest)
            then 1
            else 0))
  unfolding grade_stream
  stream_marks step name e a = ground arith

  -- A channel is worth its one point, or none.
  pub channel_marks :
      (e : Expectation) (a : Observation) (c : Channel)
      → ((grade_channel sha e a c).0 ≤ (grade_channel sha e a c).1)
        × ((grade_channel sha e a c).1 ≡ (if (channel_of e c).graded then 1 else 0))
  unfolding grade_channel
  channel_marks e a exit_channel = ground (arith, exit_marks e.step e.exit_code a.exit_code)
  channel_marks e a stdout_channel = ground (arith, stream_marks e.step "stdout" e.stdout a.stdout)
  channel_marks e a stderr_channel = ground (arith, stream_marks e.step "stderr" e.stderr a.stderr)
  channel_marks e a tree_channel = ground (arith, stream_marks e.step "tree" e.tree a.tree)

  pub exit_digest :
      (r : Observation) (rs : List Observation)
      → (freeze_exit sha r (r ∷ rs)).graded ≡ true
      → (freeze_exit sha r (r ∷ rs)).digest ≡ digest_text sha (str_int r.exit_code)
  unfolding freeze_exit
  exit_digest r rs h = ground (arith, h)

  exit_passes :
      (step : ℕ) (r : Observation) (rs : List Observation) (code : ℤ)
      → ((freeze_exit sha r (r ∷ rs)).graded ≡ true → code ≡ r.exit_code)
      → (grade_exit sha step (freeze_exit sha r (r ∷ rs)) code).0
        ≡ (grade_exit sha step (freeze_exit sha r (r ∷ rs)) code).1
  exit_passes step r rs code h =
      let e = freeze_exit sha r (r ∷ rs) in
      let (t, p) = exit_marks step e code in
      full_if e.graded (str_eq (digest_text sha (str_int code)) e.digest) p t λ g.
        (str_eq_iff (digest_text sha (str_int code)) e.digest).1
          (ap (λ n. digest_text sha (str_int n)) (h g) ∙ sym (exit_digest r rs g))

  stream_passes :
      (step : ℕ) (name : String) (r : Stream) (rs : List Stream) (a : Stream)
      → ((freeze_stream sha (r ∷ rs)).graded ≡ true → Reproduces r rs a)
      → (grade_stream sha step name (freeze_stream sha (r ∷ rs)) a).0
        ≡ (grade_stream sha step name (freeze_stream sha (r ∷ rs)) a).1
  stream_passes step name r rs a h =
      let e = freeze_stream sha (r ∷ rs) in
      let (t, p) = stream_marks step name e a in
      full_if e.graded
        (length a.lines == e.line_count && str_eq (digest_stream sha a e.masked) e.digest) p t
        λ g. both (Reproduces-passes sha r rs e a (freeze_stream-Frozen sha r rs g) (h g))

  -- A channel that reproduces the reference, or that is not graded, loses no point.
  pub channel_passes :
      (step : ℕ) (r : Observation) (rs : List Observation) (a : Observation) (c : Channel)
      → let e = freeze_step sha step (r ∷ rs) in
        ((channel_of e c).graded ≡ true → Reproduced r rs a c)
        → (grade_channel sha e a c).0 ≡ (grade_channel sha e a c).1
  unfolding freeze_step grade_channel
  channel_passes step r rs a exit_channel h = exit_passes step r rs a.exit_code h
  channel_passes step r rs a stdout_channel h =
      stream_passes step "stdout" r.stdout (map (λ o. o.stdout) rs) a.stdout h
  channel_passes step r rs a stderr_channel h =
      stream_passes step "stderr" r.stderr (map (λ o. o.stderr) rs) a.stderr h
  channel_passes step r rs a tree_channel h =
      stream_passes step "tree" r.tree (map (λ o. o.tree) rs) a.tree h

  module _ (inj : (s t : String) → sha s ≡ sha t → s ≡ t) where
    exit_reproduces :
        (step : ℕ) (r : Observation) (rs : List Observation) (code : ℤ)
        → (grade_exit sha step (freeze_exit sha r (r ∷ rs)) code).0
          ≡ (grade_exit sha step (freeze_exit sha r (r ∷ rs)) code).1
        → (freeze_exit sha r (r ∷ rs)).graded ≡ true
        → code ≡ r.exit_code
    unfolding digest_text
    exit_reproduces step r rs code e g =
        let x = freeze_exit sha r (r ∷ rs) in
        let (t, p) = exit_marks step x code in
        let d = if_full x.graded (str_eq (digest_text sha (str_int code)) x.digest) p t e g in
        str_int-injective code r.exit_code (
          inj (str_int code) (str_int r.exit_code) (
            append_cancel "sha256:" _ _
              ((str_eq_iff (digest_text sha (str_int code)) x.digest).0 d ∙ exit_digest r rs g)))

    stream-Reproduces :
        (step : ℕ) (name : String) (r : Stream) (rs : List Stream) (a : Stream)
        → All IsLine r.lines
        → All IsLine a.lines
        → (grade_stream sha step name (freeze_stream sha (r ∷ rs)) a).0
          ≡ (grade_stream sha step name (freeze_stream sha (r ∷ rs)) a).1
        → (freeze_stream sha (r ∷ rs)).graded ≡ true
        → Reproduces r rs a
    stream-Reproduces step name r rs a hr ha e g =
        let x = freeze_stream sha (r ∷ rs) in
        let (t, p) = stream_marks step name x a in
        let (n, d) = split_both _ _ (
          if_full x.graded
            (length a.lines == x.line_count && str_eq (digest_stream sha a x.masked) x.digest) p t e
            g) in
        passes-Reproduces sha r rs x a inj hr ha (freeze_stream-Frozen sha r rs g) n d

    -- A graded channel that loses no point reproduces the reference.
    pub channel_reproduces :
        (step : ℕ) (r : Observation) (rs : List Observation) (a : Observation) (c : Channel)
        → HasLines r
        → HasLines a
        → let e = freeze_step sha step (r ∷ rs) in
          (grade_channel sha e a c).0 ≡ (grade_channel sha e a c).1
          → (channel_of e c).graded ≡ true
          → Reproduced r rs a c
    unfolding freeze_step grade_channel
    channel_reproduces step r rs a exit_channel hr ha e g =
        exit_reproduces step r rs a.exit_code e g
    channel_reproduces step r rs a stdout_channel hr ha e g =
        stream-Reproduces step "stdout" r.stdout (map (λ o. o.stdout) rs) a.stdout hr.0 ha.0 e g
    channel_reproduces step r rs a stderr_channel hr ha e g =
        stream-Reproduces step "stderr" r.stderr (map (λ o. o.stderr) rs) a.stderr hr.1 ha.1 e g
    channel_reproduces step r rs a tree_channel hr ha e g =
        stream-Reproduces step "tree" r.tree (map (λ o. o.tree) rs) a.tree hr.2 ha.2 e g
