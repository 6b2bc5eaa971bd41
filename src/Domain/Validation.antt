-- ===== src/Domain/Validation.antt =====
-- packages/domain/src/validation.ts, its names passed on.
mod Fields
mod Records
mod Results
unfoldable pub use Fields.*
unfoldable pub use Records.*
unfoldable pub use Results.*
