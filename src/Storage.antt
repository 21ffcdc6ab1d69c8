-- ===== src/Storage.antt =====
-- The storage engine, storage/*.rs.
pub mod Lines
pub mod Memtable
pub mod Wal
pub mod Engine
mod Tests
