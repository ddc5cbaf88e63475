-- ===== src/Pipeline/Laws.antt =====
-- What frf/core/pipeline.py guarantees.
pub mod Accepted
pub mod Faults
pub mod Established
pub mod Vouched
pub mod Delivered
pub mod Emission
pub mod Tests
