-- ===== src/Tests.antt =====
-- Concrete inputs, and the theorems at them.
mod Values
mod Cores
mod Chats
mod Disks
mod Agents
mod OpenCodes
mod Messages
