-- ===== src/SyncGate/Laws.antt =====
-- What holds of the gate however its threads interleave.
use frontier_refactor_factor.Prelude.{
  ℕ, ◌+◌, ◌≤◌, ◌≡◌, refl, Bool, true, false, ◌&&◌, ◌||◌, Option, none, some, List, [], ◌∷◌, arith,
  leb, ◌==◌, if◌then◌else◌,
}
use frontier_refactor_factor.SyncGate.{
  Gate, new_gate, Event, goes_by, acquires, locks, wakes, exits, wakes_at, step, Reaches, start,
  after,
}

abbrev pub sleeping : Option ℕ → ℕ
sleeping none = 0
sleeping (some t) = 1

-- Each two that follow each other are an interval apart.
abbrev pub is_spaced : ℕ → List ℕ → Bool
is_spaced interval [] = true
is_spaced interval (t ∷ []) = true
is_spaced interval (t ∷ u ∷ ts) = leb (u + interval) t && is_spaced interval (u ∷ ts)

abbrev is_head : ℕ → List ℕ → Bool
is_head last [] = true
is_head last (t ∷ ts) = t == last

-- The sleeper wakes in that time.
abbrev is_due : ℕ → ℕ → Option ℕ → Bool
is_due t u none = true
is_due t u (some w) = leb t w && leb w u

-- What every step keeps, for a gate of so many slots.
abbrev is_gate : ℕ → Gate → Bool
is_gate limit g =
    (g.slots + (g.queued + (sleeping g.sleeper + g.inside))) == limit
    && (leb g.last g.now
        && (is_due (g.last + g.interval) (g.now + g.interval) g.sleeper
            && (is_head g.last g.passed && is_spaced g.interval g.passed)))

step-is_gate :
    (limit interval : ℕ) (e : Event) (g h : Gate)
    → g.interval ≡ interval
    → is_gate limit g ≡ true
    → step e g ≡ some h
    → (h.interval ≡ interval) × (is_gate limit h ≡ true)
unfolding step wakes_at
step-is_gate limit interval (goes_by d) g h i k e =
    (ground (arith, i, k, e), ground (arith, i, k, e))
step-is_gate limit interval acquires g h i k e = (ground (arith, i, k, e), ground (arith, i, k, e))
step-is_gate limit interval locks g h i k e = (ground (arith, i, k, e), ground (arith, i, k, e))
step-is_gate limit interval wakes g h i k e = (ground (arith, i, k, e), ground (arith, i, k, e))
step-is_gate limit interval exits g h i k e = (ground (arith, i, k, e), ground (arith, i, k, e))

module _ (max_concurrent interval now : ℕ) where
  abbrev pub first_gate : Gate
  first_gate = new_gate max_concurrent interval now

  abbrev pub limit : ℕ
  limit = if leb 1 max_concurrent then max_concurrent else 1

  reached-is_gate :
      (g : Gate) → Reaches first_gate g → (g.interval ≡ interval) × (is_gate limit g ≡ true)
  unfolding new_gate
  reached-is_gate g start = (refl, ground arith)
  reached-is_gate g (after {h} r e s) =
      let (i, k) = reached-is_gate h r in step-is_gate limit interval e h g i k s

  -- However the threads interleave, and whenever they wake: no more of them are through the gate
  -- than there are slots, no slot is lost, and each two calls that follow each other came through
  -- an interval apart at least, where calls are spaced at all.
  pub gate_holds :
      (g : Gate)
      → Reaches first_gate g
      → (g.inside ≤ limit)
        × (g.slots + g.queued + sleeping g.sleeper + g.inside ≡ limit)
        × (is_spaced interval g.passed ≡ true)
  gate_holds g r =
      let (i, k) = reached-is_gate g r in
      (ground (arith, k), ground (arith, k), ground (arith, i, k))

  abbrev pub can : Event → Gate → Bool
  can e g = elim (step e g) [ none ↦ false | some h ↦ true ]

  -- The gate never locks up: at each moment a slot is free, or a thread can leave or take the
  -- lock, or the one that sleeps under the lock has woken when one interval has gone by.
  pub gate_moves :
      (g : Gate)
      → Reaches first_gate g
      → (can acquires g
          || (can exits g || (can locks g || can wakes (record g { now = g.now + interval }))))
        ≡ true
  unfolding step
  gate_moves g r = let (i, k) = reached-is_gate g r in ground (arith, i, k)
