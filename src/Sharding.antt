-- ===== src/Sharding.antt =====
-- The sharding of keys, sharding/*.rs.
pub mod Ring
pub mod Router
mod Tests
