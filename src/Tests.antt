-- ===== src/Tests.antt =====
-- Concrete runs of the program's parts.
pub mod Samples
pub mod Domain
pub mod Checks
pub mod Engine
pub mod Aggregation
pub mod Pipeline
pub mod Worker
pub mod Durable
pub mod FileRegistry
pub mod Runtime
pub mod Source
pub mod Detection
pub mod Bot
