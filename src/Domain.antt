-- ===== src/Domain.antt =====
-- packages/domain: the shared data model and its validation.
pub mod Dates
pub mod Paths
pub mod Types
pub mod Queue
pub mod Validation
