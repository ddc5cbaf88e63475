-- ===== src/SyncGate/Tests.antt =====
-- A gate with one slot and an interval of 6, at a second call that comes 2 after the first.
use frontier_refactor_factor.Prelude.{◌+◌, ◌≤◌, ◌≡◌, refl, true, ◌||◌, some, [], ◌∷◌}
use frontier_refactor_factor.SyncGate.{
  Gate, new_gate, goes_by, acquires, locks, wakes, exits, step, Reaches, start, after,
}
use frontier_refactor_factor.SyncGate.Laws.{
  first_gate, limit, sleeping, is_spaced, can, gate_holds, gate_moves,
}

abbrev second_call : Gate
second_call = record {
  slots = 0;
  interval = 6;
  last = 100;
  now = 102;
  queued = 0;
  sleeper = some 106;
  inside = 0;
  passed = 100 ∷ [];
}

second_call-reached : Reaches (first_gate 1 6 100) second_call
unfolding new_gate step
second_call-reached =
    after
      (after
        (after (after (after (after (after start acquires refl) locks refl) wakes refl) exits refl)
          (goes_by 2) refl)
        acquires refl)
      locks refl

gate_holds_example :
    (second_call.inside ≤ limit 1 6 100)
    × (second_call.slots + second_call.queued + sleeping second_call.sleeper + second_call.inside
        ≡ limit 1 6 100)
    × (is_spaced 6 second_call.passed ≡ true)
gate_holds_example = gate_holds 1 6 100 second_call second_call-reached

gate_moves_example :
    (can 1 6 100 acquires second_call
      || (can 1 6 100 exits second_call
          || (can 1 6 100 locks second_call
              || can 1 6 100 wakes (record second_call { now = second_call.now + 6 }))))
    ≡ true
gate_moves_example = gate_moves 1 6 100 second_call second_call-reached
