-- ===== src/Core.antt =====
-- The bridge core: c_auto_bridge/core.
pub mod Types
pub mod Events
pub mod RunView
pub mod Queue
pub mod Controller
pub mod Workspaces
pub mod UseCases
