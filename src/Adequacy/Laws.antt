-- ===== src/Adequacy/Laws.antt =====
-- What is proved of frf/core/adequacy.py.
pub mod Floor
pub mod Settled
pub mod Asks
pub mod Audit
mod Tests
