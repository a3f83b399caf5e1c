-- ===== src/Core/Controller.antt =====
-- core/run_controller.py: the runs of all private chats, one active run to a chat at most.
pub mod State
pub mod Timers
pub mod Sessions
pub mod Consume
pub mod Handlers
pub mod Invariant
pub mod Machine
pub mod Trace
