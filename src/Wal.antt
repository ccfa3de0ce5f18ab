-- ===== src/Wal.antt =====
-- crates/iron-wal: the write-ahead log.
pub mod Types
pub mod Format
pub mod Limits
pub mod Io
pub mod Reader
pub mod Writer
pub mod Tests
