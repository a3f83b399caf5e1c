-- ===== src/Agent.antt =====
-- agent/: the translation of what the agents send into events of the core, and the router of Codex
-- events.
pub mod Payload
pub mod Codex
pub mod OpenCode
