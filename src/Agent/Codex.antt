-- ===== src/Agent/Codex.antt =====
-- agent/codex_translator.py and the event router of agent/codex_app_server.py.
pub mod Translator
pub mod Router
