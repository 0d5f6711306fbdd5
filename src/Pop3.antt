-- ===== src/Pop3.antt =====
-- internal/pop3
pub mod Session
pub mod Handlers
pub mod Proto
pub mod Exclusion
