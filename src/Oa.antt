-- ===== src/Oa.antt =====
-- The OA counter library: lib/gputop-oa-counters.c, lib/gputop-oa-counters.h and the structures
-- of lib/gputop-oa-metrics.h.
pub mod Device
pub mod Timebase
pub mod Report
pub mod Clock
pub mod Accumulator
pub mod Record
pub mod Examples
