-- ===== src/Delivery.antt =====
-- internal/delivery: the mailman and the queue worker.
pub mod Worker
pub mod Mailman
pub mod Retrieval
pub mod Outbound
pub mod Restart
pub mod Client
pub mod Queue
pub mod Work
