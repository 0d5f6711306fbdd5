-- ===== src/Storage.antt =====
-- internal/storage: the database, the blobs, the cache and the cleaner.
pub mod Tables
pub mod Db
pub mod Blobs
pub mod Cache
pub mod Cleaner
pub mod Open
