-- ===== src/Raft.antt =====
-- storage/src/raft/mod.rs: the state of a Raft node and its handlers.
pub mod Node
pub mod Append
pub mod Handlers
pub mod AppendLaws
pub mod Replicate
pub mod Votes
pub mod Commit
mod Tests
