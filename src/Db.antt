-- ===== src/Db.antt =====
-- src/db.cpp: the storage engine.
pub mod Record
pub mod Compaction
pub mod Replay
pub mod Manifest
pub mod Read
pub mod Scan
pub mod Pick
pub mod Write
pub mod Snapshots
pub mod Files
