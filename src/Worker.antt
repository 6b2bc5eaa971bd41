-- ===== src/Worker.antt =====
-- apps/worker: the queues, the result registry and the runtime that connects them.
pub mod Registry
pub mod FileRegistry
pub mod Queue
pub mod SqliteQueue
pub mod SqliteRegistry
pub mod Runtime
