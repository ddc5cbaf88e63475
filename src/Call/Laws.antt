-- ===== src/Call/Laws.antt =====
-- Theorems on the seam that observes calls.
pub mod Sessions
pub mod Unanimous
pub mod Timed
pub mod Sound
pub mod Names
pub mod Runs
pub mod Battery
pub mod Ceiling
mod Tests
