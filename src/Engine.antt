-- ===== src/Engine.antt =====
-- packages/engine: how check results are aggregated into a verification result, how one check is
-- executed in a sandbox, and the pipeline from a project to its outcomes.
pub mod Evidence
pub mod Coverage
pub mod Aggregation
pub mod Interfaces
pub mod Sandbox
pub mod Execution
pub mod Preparation
pub mod Pipeline
