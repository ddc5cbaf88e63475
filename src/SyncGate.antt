-- ===== src/SyncGate.antt =====
-- The class `SyncGate` of frf/core/rate_limiter.py, with the threads that pass it. A thread takes a
-- slot, then, where calls are spaced, the lock; under the lock it sleeps as long as the spacing
-- asks for, notes the time, and goes on; in the end it gives its slot back. Times are whole
-- numbers of a unit small enough for the interval to be one.
pub mod Laws
mod Tests
use frontier_refactor_factor.Prelude.{
  ℕ, zero, suc, ◌+◌, ◌-◌, ◌≡◌, Bool, Option, none, some, List, [], ◌∷◌, ltb, leb, ◌==◌,
  if◌then◌else◌,
}

pub record Gate : Type 0 where
  -- `_slots`, `_interval` and `_last`
  pub slots : ℕ
  pub interval : ℕ
  pub last : ℕ
  -- the clock, `time.monotonic()`
  pub now : ℕ
  -- threads with a slot that wait for the lock, the one that sleeps under it, and when it wakes
  pub queued : ℕ
  pub sleeper : Option ℕ
  -- threads that are through, and the times at which spaced ones came through, the last one first
  pub inside : ℕ
  pub passed : List ℕ

-- `SyncGate(max_concurrent, calls_per_minute)`, given the interval
unfoldable pub new_gate : ℕ → ℕ → ℕ → Gate
new_gate max_concurrent interval now = record {
  slots = if leb 1 max_concurrent then max_concurrent else 1;
  interval = interval;
  last = 0;
  now = now;
  queued = 0;
  sleeper = none;
  inside = 0;
  passed = [];
}

-- What can happen next: time goes by; `_slots.acquire()`; `_spacing` is taken and the wait worked
-- out; `time.sleep` is over and `_last` set; `__exit__`.
pub data Event : Type 0 where
  goes_by : ℕ → Event
  acquires locks wakes exits : Event

-- When a thread that takes the lock goes on: `now`, or later by `wait` if that is positive.
unfoldable pub wakes_at : Gate → ℕ
wakes_at g = let wait = g.interval - (g.now - g.last) in if ltb 0 wait then g.now + wait else g.now

abbrev pub take_slot : ℕ → Gate → Option Gate
take_slot zero g = none
take_slot (suc n) g =
    if g.interval == 0
    then some (record g { slots = n; inside = g.inside + 1 })
    else some (record g { slots = n; queued = g.queued + 1 })

abbrev pub take_lock : ℕ → Option ℕ → Gate → Option Gate
take_lock (suc n) none g = some (record g { queued = n; sleeper = some (wakes_at g) })
take_lock _ _ g = none

abbrev pub wake : Option ℕ → Gate → Option Gate
wake none g = none
wake (some t) g =
    if leb t g.now
    then some (record g {
      sleeper = none;
      last = g.now;
      inside = g.inside + 1;
      passed = g.now ∷ g.passed;
    })
    else none

abbrev pub leave : ℕ → Gate → Option Gate
leave zero g = none
leave (suc n) g = some (record g { slots = g.slots + 1; inside = n })

-- The gate after an event; none where the thread is still blocked.
unfoldable pub step : Event → Gate → Option Gate
unfolding wakes_at
step (goes_by d) g = some (record g { now = g.now + d })
step acquires g = take_slot g.slots g
step locks g = take_lock g.queued g.sleeper g
step wakes g = wake g.sleeper g
step exits g = leave g.inside g

-- The gates that events, in any order, lead to.
pub data Reaches (g : Gate) : Gate → Type 0 where
  start : Reaches g g
  after : {h k : Gate} → Reaches g h → (e : Event) → step e h ≡ some k → Reaches g k
