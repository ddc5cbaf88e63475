-- ===== src/Evidence/Laws.antt =====
-- What the verdicts of frf/core/evidence.py say, on every branch.
pub mod Ends
pub mod Channels
pub mod Exact
pub mod Tests
