-- ===== src/Timing/Laws/Tests.antt =====
-- The theorem on timing at a concrete measurement: the world counts what was timed.
use frontier_refactor_factor.Prelude.{
  ℕ, suc, ◌<◌, ◌≡◌, refl, String, Bool, true, false, [], ◌∷◌, is_more, arith, leb, if◌then◌else◌,
}
use frontier_refactor_factor.Exec.{Exec, Result, ok, err, pure}
use frontier_refactor_factor.Exec.Ensures.{Ensures}
use frontier_refactor_factor.Timing.{Cost, costs, SpeedResult}
use frontier_refactor_factor.Timing.Measure.{measure}
use frontier_refactor_factor.Timing.Laws.Runs.{Reports, measure-Reports}

-- A draw that moves over the ratios.
abbrev choose : ℕ → ℕ → ℕ → ℕ
choose i j n = if leb n j then 0 else j

choose-in_range : (i j n : ℕ) → 0 < n → choose i j n < n
choose-in_range i j n h = ground (arith, h)

abbrev numbered : String → ℕ → Exec ℕ ℕ
numbered shape i = pure i

abbrev thrice : ℕ → Exec ℕ Cost
thrice i w = (ok (costs (record { above = 3; below = 1 })), suc w)

abbrev once : ℕ → Exec ℕ Cost
once i w = (ok (costs (record { above = 1; below = 1 })), suc w)

measure-Reports_example :
    Ensures
      (Reports choose 20 numbered thrice once 2 1 ("small" ∷ "large" ∷ []))
      (measure choose 20 numbered thrice once ("small" ∷ "large" ∷ []) 2 1)
measure-Reports_example =
    measure-Reports choose 20 numbered thrice once 2 1 choose-in_range (omega arith)
      ("small" ∷ "large" ∷ [])

-- Three times as fast on both shapes, after 20 readings.
abbrev three : Result SpeedResult → Bool
three (ok r) = is_more r.speedup (record { above = 2; below = 1 })
three (err x) = false

fast : three (measure choose 20 numbered thrice once ("small" ∷ "large" ∷ []) 2 1 0).0 ≡ true
unfolding measure
fast = refl
