-- ===== src/Client.antt =====
-- The client library: lib/gputop-client-context.c.
pub mod Log
pub mod Topology
pub mod Perf
pub mod Platform
pub mod CpuStats
pub mod Streams
pub mod Timeline
pub mod Tracepoints
mod Examples
