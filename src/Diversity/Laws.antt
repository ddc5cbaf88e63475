-- ===== src/Diversity/Laws.antt =====
-- What is proved of frf/core/diversity.py.
pub mod Cap
pub mod Key
