-- ===== src/Store.antt =====
-- store/: the files that outlive the process.
pub mod Files
pub mod Models
pub mod FileStore
pub mod Persistence
