-- ===== src/Timing/Laws.antt =====
-- Theorems on timing.
pub mod Positive
pub mod Shapes
pub mod Ratios
pub mod Runs
mod Tests
