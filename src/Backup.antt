-- ===== src/Backup.antt =====
-- The package backup: the request log and its daily archive.
pub mod Clock
pub mod Compression
pub mod Disk
pub mod Archive
pub mod Lines
pub mod Service
mod Tests
