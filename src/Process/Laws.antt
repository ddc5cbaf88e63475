-- ===== src/Process/Laws.antt =====
-- Theorems on the seam that observes commands.
pub mod Lines
pub mod Streams
pub mod Grading
pub mod Steps
pub mod Battery
pub mod Timed
pub mod Replay
pub mod Frozen
pub mod Counted
pub mod Sound
mod Tests
