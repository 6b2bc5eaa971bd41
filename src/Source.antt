-- ===== src/Source.antt =====
-- packages/adapters-source: what the GitHub source adapter decides.
pub mod Freshness
pub mod Rendering
pub mod Publisher
