-- ===== src/Checks.antt =====
-- packages/checks: the catalog of checks, their trusted execution specifications, the planner and
-- the selection of what is executed.
pub mod Catalog
pub mod Specs
pub mod Settings
pub mod Dependencies
pub mod Planner
pub mod Selection
