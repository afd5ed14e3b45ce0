-- ===== src/Wal.antt =====
-- internal/scope/db/wal: the write-ahead log.
pub mod Record
pub mod Reader
pub mod Payload
pub mod Tail
pub mod Index
pub mod Recovery
pub mod Compactor
pub mod Manifest
pub mod Roller
pub mod Writer
mod Runs
