-- ===== src/Process/Laws/Steps.antt =====
-- A step's marks over its four channels.
use frontier_refactor_factor.Prelude.{
  ℕ, get_elem?, ◌≡◌, ◌≤◌, refl, String, true, List, [], ◌∷◌, map, arith, length, All, All-each,
  All-weaken, All-unmap, eq_int, all_one, ◌↔◌, count,
}
use frontier_refactor_factor.Process.{
  Stream, Observation, Channel, exit_channel, stdout_channel, stderr_channel, tree_channel,
  channels, channel_of, Expectation, graded_points, freeze_stream, freeze_exit, freeze_step,
  grade_channel, grade, grade_over,
}
use frontier_refactor_factor.Process.Laws.Streams.{Reproduces, Settled, freeze_stream-Frozen}
use frontier_refactor_factor.Process.Laws.Grading.{
  Reproduced, HasLines, channel_marks, channel_passes, channel_reproduces,
}

module _ (sha : String → String) where
  sums :
      (e : Expectation) (a : Observation) (cs : List Channel)
      → ((grade_over sha e a cs).0 ≤ (grade_over sha e a cs).1)
        × ((grade_over sha e a cs).1 ≡ count (λ c. (channel_of e c).graded) cs)
  unfolding grade_over
  sums e a [] = (omega arith, refl)
  sums e a (c ∷ cs) = ground (arith, channel_marks sha e a c, sums e a cs)

  pub grade_le : (e : Expectation) (a : Observation) → (grade sha e a).0 ≤ (grade sha e a).1
  unfolding grade
  grade_le e a = (sums e a channels).0

  pub grade-graded_points :
      (e : Expectation) (a : Observation) → (grade sha e a).1 ≡ graded_points e
  unfolding grade
  grade-graded_points e a = (sums e a channels).1

  over_full :
      (e : Expectation) (a : Observation) (cs : List Channel)
      → ((grade_over sha e a cs).0 ≡ (grade_over sha e a cs).1)
        ↔ All (λ c. (grade_channel sha e a c).0 ≡ (grade_channel sha e a c).1) cs
  unfolding grade_over
  over_full e a [] = (λ _. tt, λ _. refl)
  over_full e a (c ∷ cs) =
      let (le, worth) = channel_marks sha e a c in
      let (le_rest, points) = sums e a cs in
      let (to, from) = over_full e a cs in
      (
        λ h. (omega (arith, h, le, le_rest), to (omega (arith, h, le, le_rest))),
        λ (h, k). omega (arith, h, from k),
      )

  -- Full marks for a step are the marks of every channel.
  pub grade_full :
      (e : Expectation) (a : Observation)
      → ((c : Channel) → (grade_channel sha e a c).0 ≡ (grade_channel sha e a c).1)
      → (grade sha e a).0 ≡ (grade sha e a).1
  unfolding grade
  grade_full e a h =
      (over_full e a channels).1
        (h exit_channel, (h stdout_channel, (h stderr_channel, (h tree_channel, tt))))

  full_channels :
      (e : Expectation) (a : Observation)
      → (grade sha e a).0 ≡ (grade sha e a).1
      → (c : Channel) → (grade_channel sha e a c).0 ≡ (grade_channel sha e a c).1
  unfolding grade
  full_channels e a h c =
      let (exit, (stdout, (stderr, (tree, end)))) = (over_full e a channels).0 h in
      elim c as (λ c. (grade_channel sha e a c).0 ≡ (grade_channel sha e a c).1) [
        | exit_channel ↦ exit
        | stdout_channel ↦ stdout
        | stderr_channel ↦ stderr
        | tree_channel ↦ tree
      ]

  -- The masks and digests implement this contract, for an injective hash and for runs and
  -- submissions whose lines are lines (they hold no line break): a submission has full marks for
  -- a step exactly if every graded channel is reproduced, which is the exit code of the reference,
  -- or as many lines as it wrote, with its line wherever all of its runs wrote the same.
  pub grade-Reproduced :
      (step : ℕ) (r : Observation) (rs : List Observation) (a : Observation)
      → ((s t : String) → sha s ≡ sha t → s ≡ t)
      → HasLines r
      → HasLines a
      → ((grade sha (freeze_step sha step (r ∷ rs)) a).0
          ≡ (grade sha (freeze_step sha step (r ∷ rs)) a).1)
        ↔ ((c : Channel)
            → (channel_of (freeze_step sha step (r ∷ rs)) c).graded ≡ true
            → Reproduced r rs a c)
  grade-Reproduced step r rs a inj hr ha =
      let e = freeze_step sha step (r ∷ rs) in
      (
        λ h c g. channel_reproduces sha inj step r rs a c hr ha (full_channels e a h c) g,
        λ h. grade_full e a λ c. channel_passes sha step r rs a c (h c),
      )

  -- Every run of a stream reproduces what is graded of it.
  agreeing :
      (r : Stream) (all rs : List Stream)
      → All (λ s. length s.lines ≡ length r.lines) rs
      → ((i : ℕ) → Settled r all i → All (λ s. get_elem? s.lines i ≡ get_elem? r.lines i) rs)
      → All (Reproduces r all) rs
  agreeing r all [] n h = tt
  agreeing r all (s ∷ rs) (n, ns) h = (
    record { same_count = n; same_lines = λ i k. (h i k).0 },
    agreeing r all rs ns λ i k. (h i k).1,
  )

  pub runs-Reproduce :
      (r : Stream) (rs : List Stream)
      → (freeze_stream sha (r ∷ rs)).graded ≡ true
      → All (Reproduces r rs) (r ∷ rs)
  runs-Reproduce r rs g =
      let f = freeze_stream-Frozen sha r rs g in
      (
        record { same_count = refl; same_lines = λ i k. refl },
        agreeing r rs rs f.same_counts λ i k. k,
      )

  exit_runs :
      (r : Observation) (rs : List Observation)
      → (freeze_exit sha r (r ∷ rs)).graded ≡ true
      → All (λ o. o.exit_code ≡ r.exit_code) (r ∷ rs)
  unfolding freeze_exit
  exit_runs r rs g = (
    refl,
    All-unmap (λ o. o.exit_code) (λ n. n ≡ r.exit_code) rs
        (all_one r.exit_code (map (λ o. o.exit_code) rs) (ground (arith, g))),
  )

  runs_reproduce :
      (step : ℕ) (r : Observation) (rs : List Observation) (c : Channel)
      → (channel_of (freeze_step sha step (r ∷ rs)) c).graded ≡ true
      → All (λ o. Reproduced r rs o c) (r ∷ rs)
  unfolding freeze_step
  runs_reproduce step r rs exit_channel g = exit_runs r rs g
  runs_reproduce step r rs stdout_channel g =
      All-unmap (λ o. o.stdout) _ (r ∷ rs) (runs-Reproduce r.stdout (map (λ o. o.stdout) rs) g)
  runs_reproduce step r rs stderr_channel g =
      All-unmap (λ o. o.stderr) _ (r ∷ rs) (runs-Reproduce r.stderr (map (λ o. o.stderr) rs) g)
  runs_reproduce step r rs tree_channel g =
      All-unmap (λ o. o.tree) _ (r ∷ rs) (runs-Reproduce r.tree (map (λ o. o.tree) rs) g)

  -- Every run of the reference has full marks against what the runs froze to.
  pub runs_full :
      (step : ℕ) (r : Observation) (rs : List Observation)
      → All
          (λ o.
            (grade sha (freeze_step sha step (r ∷ rs)) o).0
            ≡ (grade sha (freeze_step sha step (r ∷ rs)) o).1)
          (r ∷ rs)
  runs_full step r rs =
      let e = freeze_step sha step (r ∷ rs) in
      All-weaken (λ o. (c : Channel) → (channel_of e c).graded ≡ true → Reproduced r rs o c)
        (λ o. (grade sha e o).0 ≡ (grade sha e o).1) (r ∷ rs)
        (λ o h. grade_full e o λ c. channel_passes sha step r rs o c (h c))
        (All-each (λ c o. (channel_of e c).graded ≡ true → Reproduced r rs o c) (r ∷ rs)
          λ c. All-each (λ _ o. Reproduced r rs o c) (r ∷ rs) (runs_reproduce step r rs c))
