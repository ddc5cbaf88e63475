-- ===== src/Checkpoint/Laws.antt =====
-- What is proved of frf/core/checkpoint.py.
pub mod Writing
pub mod Reading
pub mod Report
mod Tests
