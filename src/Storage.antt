-- ===== src/Storage.antt =====
-- crates/storage: the tree of nodes and its persistence.
pub mod Order
pub mod Node
pub mod Store
pub mod Persistence
