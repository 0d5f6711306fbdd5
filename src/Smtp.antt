-- ===== src/Smtp.antt =====
-- internal/smtp: the SMTP server.
pub mod Command
pub mod Limit
pub mod Session
pub mod Handlers
pub mod Invariant
pub mod Data
pub mod Auth
pub mod Proto
