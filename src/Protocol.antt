-- ===== src/Protocol.antt =====
-- crates/protocol: the types that the other crates share, and the path functions.
pub mod Types
pub mod Paths
pub mod Proto
