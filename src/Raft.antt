-- ===== src/Raft.antt =====
-- The consensus part of the store, raft/*.rs.
pub mod Log
pub mod Message
pub mod State
pub mod Persist
pub mod Node
pub mod Quorum
pub mod Matching
pub mod Votes
pub mod Merge
pub mod Writes
pub mod Commits
pub mod Durable
pub mod Replication
pub mod Timers
pub mod Tests
