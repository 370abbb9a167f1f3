-- ===== src/Server.antt =====
-- The server: server/.
pub mod Text
pub mod CpuStats
pub mod Session
pub mod Samples
pub mod Headers
pub mod Topology
pub mod Fake
pub mod Flush
pub mod Platform
pub mod Journal
