-- ===== src/Sourcing/Laws/Loop.antt =====
-- What a whole walk does.
use frontier_refactor_factor.Prelude.{
  ℕ, zero, suc, ◌+◌, ◌≤◌, ◌<◌, ◌≡◌, refl, String, Bool, true, false, not, ◌||◌, Option, none, some,
  List, [], ◌∷◌, arith, ltb, if◌then◌else◌, length, All,
}
use frontier_refactor_factor.Pipeline.Spec.{Candidate}
use frontier_refactor_factor.Sourcing.Memory.{Memory, contains, reached, resume_at}
use frontier_refactor_factor.Sourcing.Fetch.{Index, Clock, fetch_page_with_retry}
use frontier_refactor_factor.Sourcing.Walk.{
  Request, Progress, Walking, Walked, deadline_reached, is_late, ended, advance, take_page,
  take_rows, loop, start, walk, cursor_name,
}
use frontier_refactor_factor.Sourcing.Laws.Memory.{reached_advances}
use frontier_refactor_factor.Sourcing.Laws.Fresh.{
  Grows-refl, stop, IsNewTo, IsIn, IsDistinct, Differs, All-Differs, new_before, seen_after,
  Fresh-IsDistinct, Grows-Fresh,
}
use frontier_refactor_factor.Sourcing.Laws.Rows.{
  IsWanted, Takes, Takes-append, Takes-none, take_rows-Takes, take_rows-within,
}

module _ {S : Type 0} (index : Index S) (clock : Clock S) (q : Request) (deadline : Option ℕ)
    (key : String) where
  abbrev Good : Walking S → Walked S → Type 0
  Good w r = Takes q w.progress r.yielded r.state.progress × (r.state.progress.produced ≤ q.budget)

  reached-Takes :
      (p : Progress) (n : ℕ) → Takes q p [] (record p { memory = reached p.memory key n })
  unfolding reached resume_at
  reached-Takes p n = record {
    fresh = stop (Grows-refl p.memory.seen);
    wanted = tt;
    produced = omega arith;
    counted = omega arith;
    walked = omega arith;
    cursors = record { at = λ k. (reached_advances p.memory key k n).0 };
  }

  if-Takes :
      (p : Progress) (b : Bool) (x y : Walking S)
      → Takes q p [] x.progress
      → Takes q p [] y.progress
      → Takes q p [] (if b then x else y).progress
  if-Takes p true x y h k = h
  if-Takes p false x y h k = k

  advance-Takes :
      (w : Walking S) (t : S)
      → Takes q w.progress [] (advance index clock q deadline key w t).progress
  unfolding advance
  advance-Takes w t =
      if-Takes w.progress index.resumable_pages _ _ (reached-Takes w.progress (w.page + 1))
        (reached-Takes w.progress (index.cursor t))

  if-Good :
      (w : Walking S) (b : Bool) (x y : Walked S)
      → (b ≡ true → Good w x)
      → (b ≡ false → Good w y)
      → Good w (if b then x else y)
  if-Good w true x y h k = h refl
  if-Good w false x y h k = k refl

  take_page-Good :
      (again : Walking S → Walked S)
      → ((w : Walking S) → w.progress.produced ≤ q.budget → Good w (again w))
      → (w : Walking S) (fetched : Option (List Candidate)) (t : S) → w.progress.produced < q.budget
      → Good w (take_page index clock q deadline key again w fetched t)
  unfolding take_page
  take_page-Good again h w none t p =
      if-Good w _ _ _ (λ _. (Takes-none q w.progress, omega arith))
        (λ _. h (record w { page = w.page + 1; errors = w.errors + 1; outside = t }) (omega arith))
  take_page-Good again h w (some []) t p = (Takes-none q w.progress, omega arith)
  take_page-Good again h w (some (c ∷ cs)) t p =
      let next = advance index clock q deadline key w t in
      let moved = advance-Takes w t in
      let before : next.progress.produced < q.budget = omega (arith, moved.produced) in
      let taken = take_rows q next.progress (c ∷ cs) in
      let rest =
        h (record next { progress = taken.1 }) (take_rows-within q next.progress (c ∷ cs) before) in
      (Takes-append moved (Takes-append (take_rows-Takes q next.progress (c ∷ cs)) rest.0), rest.1)

  pub loop-Good :
      (fuel : ℕ) (w : Walking S)
      → w.progress.produced ≤ q.budget
      → Good w (loop index clock q deadline key fuel w)
  unfolding loop
  loop-Good zero w p = (Takes-none q w.progress, p)
  loop-Good (suc fuel) w p =
      let (fetched, t) = fetch_page_with_retry index clock w.page q.page_size w.outside in
      if-Good w (not (ltb w.progress.produced q.budget)) _ _ (λ _. (Takes-none q w.progress, p))
        λ room.
          if-Good w (is_late index clock q deadline key w.outside)
            (ended index clock q deadline key deadline_reached w)
            (take_page index clock q deadline key (loop index clock q deadline key fuel) w fetched
              t)
            (λ _. (Takes-none q w.progress, p))
            λ _.
              take_page-Good (loop index clock q deadline key fuel) (loop-Good fuel) w fetched t
                (ground arith)

module _ {S : Type 0} (index : Index S) (clock : Clock S) (q : Request) where
  abbrev pub result : ℕ → Memory → S → Walked S
  result = walk index clock q

  abbrev pub memory_after : ℕ → Memory → S → Memory
  memory_after fuel memory s = (walk index clock q fuel memory s).state.progress.memory

  walk-Good :
      (fuel : ℕ) (memory : Memory) (s : S)
      → Takes q
          (start index clock q memory s).progress
          (result fuel memory s).yielded
          (result fuel memory s).state.progress
        × ((result fuel memory s).state.progress.produced ≤ q.budget)
  unfolding walk
  walk-Good fuel memory s =
      loop-Good index clock q _ (cursor_name index clock q) fuel (start index clock q memory s)
        (unfold start in omega arith)

  -- A walk yields no more candidates than its budget. Each of them was not in the memory before, is
  -- in it afterwards, has the fields that are required, and passes the language filter and
  -- `keep`; and no two of them have one identity.
  pub walk_yields :
      (fuel : ℕ) (memory : Memory) (s : S)
      → (length (result fuel memory s).yielded ≤ q.budget)
        × All (IsNewTo memory.seen) (result fuel memory s).yielded
        × All (IsIn (memory_after fuel memory s).seen) (result fuel memory s).yielded
        × All (IsWanted q) (result fuel memory s).yielded
        × IsDistinct (result fuel memory s).yielded
  unfolding start
  walk_yields fuel memory s =
      let (takes, within) = walk-Good fuel memory s in
      (
        omega (arith, takes.produced),
        new_before takes.fresh,
        seen_after takes.fresh,
        takes.wanted,
        Fresh-IsDistinct takes.fresh,
      )

  -- A walk forgets no identity, no cursor goes back, and its accounting is exact for what it
  -- yields: `fresh` is their number, and the rows that were walked are no fewer than fresh ones and
  -- repeats together.
  pub walk_accounts :
      (fuel : ℕ) (memory : Memory) (s : S) (id key : String)
      → ((not (contains memory id) || contains (memory_after fuel memory s) id) ≡ true)
        × (resume_at memory key ≤ resume_at (memory_after fuel memory s) key)
        × ((result fuel memory s).state.progress.coverage.fresh
            ≡ length (result fuel memory s).yielded)
        × ((result fuel memory s).state.progress.coverage.fresh
              + (result fuel memory s).state.progress.coverage.repeats
            ≤ (result fuel memory s).state.progress.coverage.walked)
  unfolding start resume_at
  walk_accounts fuel memory s id key =
      let (takes, within) = walk-Good fuel memory s in
      (
        ground (arith, (Grows-Fresh takes.fresh).at id),
        takes.cursors.at key,
        omega (arith, takes.counted),
        omega (arith, takes.walked),
      )

All-All-Differs :
    (s : List String) (cs ds : List Candidate)
    → All (IsIn s) cs
    → All (IsNewTo s) ds
    → All (λ c. All (Differs c) ds) cs
All-All-Differs s [] ds h k = tt
All-All-Differs s (c ∷ cs) ds h k = (All-Differs s c ds h.0 k, All-All-Differs s cs ds h.1 k)

-- Two walks that share a memory, over whatever indexes and for whatever requests, never yield two
-- candidates of one identity.
pub walks_disjoint :
    {S : Type 0} (first second : Index S) (clock : Clock S) (q r : Request) (fuel : ℕ)
    (memory : Memory) (s t : S)
    → All
        (λ c.
          All
            (Differs c)
            (walk second clock r fuel (memory_after first clock q fuel memory s) t).yielded)
        (walk first clock q fuel memory s).yielded
walks_disjoint first second clock q r fuel memory s t =
    let m = memory_after first clock q fuel memory s in
    All-All-Differs m.seen (walk first clock q fuel memory s).yielded
      (walk second clock r fuel m t).yielded ((walk_yields first clock q fuel memory s).2)
      ((walk_yields second clock r fuel m t).1)
