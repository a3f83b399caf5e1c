-- ===== src/Agent/OpenCode.antt =====
-- agent/opencode_translator.py and agent/opencode_server.py.
pub mod Translator
pub mod Decisions
pub mod Turn
pub mod Parts
pub mod Router
pub mod Replies
