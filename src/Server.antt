-- ===== src/Server.antt =====
-- crates/server: sessions, watches, metrics and the service.
mod Conformance
pub mod Session
pub mod Watch
pub mod Metrics
pub mod Service
pub mod Endpoint
pub mod Requests
pub mod Start
pub mod Args
pub mod Tasks
