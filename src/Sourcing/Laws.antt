-- ===== src/Sourcing/Laws.antt =====
-- What frf/core/sourcing.py promises: nothing twice, no more than was asked, cursors that only
-- advance, bounded waits, and an end.
pub mod Memory
pub mod Fresh
pub mod Rows
pub mod Loop
pub mod Ends
pub mod Waits
pub mod Tests
