-- ===== src/Consensus.antt =====
-- crates/consensus/src/lib.rs: the three ways to submit a command.
pub mod Interface
pub mod Single
pub mod Persistent
pub mod Cluster
pub mod Kept
