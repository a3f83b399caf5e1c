-- ===== src/React.antt =====
-- The rendering layer: c_auto_bridge/react, and the two places that carry core data over to it.
pub mod Events
pub mod State
pub mod Bridge
pub mod TextRenderer
