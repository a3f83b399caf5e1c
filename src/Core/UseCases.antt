-- ===== src/Core/UseCases.antt =====
-- core/use_cases.py: the messages of a chat, and what CoreUseCases does with them.
pub mod Command
pub mod State
pub mod Operations
pub mod Dispatch
pub mod Decisions
pub mod Files
pub mod Resuming
pub mod Models
pub mod Frame
