-- ===== src/Pipeline.antt =====
-- frf/core/pipeline.py: the eight stages, driven once for every scale.
pub mod Spec
pub mod Corpus
pub mod Hooks
pub mod Gates
pub mod Run
pub mod Batch
pub mod Laws
