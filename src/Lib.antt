-- ===== src/Lib.antt =====
-- gputop reads the observation counters of Intel GPUs. A server (server/) opens perf streams in
-- the kernel and sends their records over a web socket; a client library (lib/) accumulates the
-- counter reports of these records and evaluates metrics on the totals; user interfaces (ui/,
-- wrapper/) show them. The library here models these parts of lib/ and server/:
--
--   Base      C arrays, fixed-width integers, counted loops, blocks of bytes, the hash tables of
--             mesa/ as an interface (Table), and lemmas on these.
--   Oa        lib/gputop-oa-counters.c and lib/gputop-oa-counters.h: conversions of time (Timebase),
--             reports as lists of 32-bit words (Report), the clock that follows a 32-bit counter
--             (Clock), the accumulator of counter deltas (Accumulator) and the layout of the records
--             of a stream (Record). Oa/Device has the structures of lib/gputop-oa-metrics.h.
--   Metrics   lib/gputop-oa-metrics.c: the generations of devices, the tree of counter groups (Tree)
--             and the metric sets (Sets), with the lookups of lib/gputop-client-context.c.
--   Client    lib/gputop-client-context.c: the device and its topology (Platform, Topology), the
--             streams that are opened at the server (Streams), the samples that are kept of
--             an i915 perf stream (Perf: chunks and timestamps, Contexts, Recording, Stream and
--             Emptied hold the code, the other modules its proofs), the time line of tracepoints
--             (Timeline, with the messages of the server in Timeline/Message), the tracepoints that
--             are watched (Tracepoints), the window of processor statistics (CpuStats) and the message
--             log (Log), which ui/gputop-ui-main.cpp shows.
--   Server    server/gputop-string.c: the growable string (Text); server/gputop-log.c: the message
--             log (Journal); init_dev_info of server/gputop-perf.c and the device part of
--             handle_get_features in server/gputop-server.c (Platform); the flushing of the perf streams
--             of server/gputop-server.c (Flush: Ring, Parts, Fragments and Message are proofs), of
--             its i915 perf streams, with the kernel's read as an argument (Samples), and of the
--             statistics of the processors that server/gputop-perf.c logs (CpuStats). Session has the
--             life of the streams: requests, the lists of the server, the closing by handles of libuv.
--             Fake has the reports that the server makes up without a device, Headers the offsets of the
--             records of a stream in flight-recorder mode, Topology the topology that is made of masks,
--             and in Topology/Devinfo of what mesa knows of a device.
--   Util      lib/gputop-util.h: the growable array.
--
-- The server announces the device (Server/Platform) and the client registers it
-- (Client/Platform), which fills the variables of the metric equations (Client/Topology). Opening
-- a stream takes the exponent of its sampling period from Oa/Timebase. The records of the stream
-- arrive at Client/Perf, which reads them by Oa/Record, accumulates them by Oa/Accumulator and
-- stops the streams of Client/Streams when the kernel lost its buffer. The messages that Server/Flush
-- makes of the ring of a perf stream arrive at Client/Timeline/Message, which adds their records to
-- the time line; their streams are those of the tracepoints of Client/Tracepoints. Server/Session
-- takes the update of a perf stream that is not flushed from Server/Headers.
--
-- The names of functions, fields and constants are those of the source without its prefixes
-- (gputop_cc_oa_accumulate_reports is accumulate_reports). Numbers are natural numbers; the
-- wrap-around of uint8_t, uint32_t and uint64_t is written out by u8, u32, u64, sub32 and sub64.
-- A structure that the source changes in place is a record that the operation returns. A fault (a
-- failed assertion, a NULL dereference, an access out of bounds, unreachable code) is none, except
-- that a topology mask reads as 0 behind its end (Client/Topology) and that the conversions of time
-- make 0 of a frequency of 0 (Oa/Timebase).
-- Loops are recursion on a list or on the number of rounds, which is the loop's bound in the source,
-- or on fuel that is shown to be enough (Server/Headers); the calls that the web socket makes for
-- one message are a list of the rooms that it offers. Computations in floating point are arguments (the length of a
-- window) or the integers they truncate to (the growth of a block by 1.7).
--
-- Not modelled: the names of processes, the kernel interface, networking, protobuf and JSON, drawing, the vendored code
-- (mesa/, ui/imgui/), the code generator, and the parts of the client and the server that
-- are not named above.
pub mod Base
pub mod Oa
pub mod Metrics
pub mod Client
pub mod Server
pub mod Util
