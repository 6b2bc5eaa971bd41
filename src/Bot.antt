-- ===== src/Bot.antt =====
-- apps/github-bot: the webhook's replay guard, its signature and payload, and the orchestrator.
pub mod Replay
pub mod Decision
pub mod Webhook
pub mod Orchestrator
