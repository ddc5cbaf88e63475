-- ===== src/Sourcing.antt =====
-- frf/core/sourcing.py: where candidates come from, and the memory that keeps a run from
-- rediscovering what an earlier one tried.
pub mod Memory
pub mod Fetch
pub mod Walk
pub mod Laws
