-- ===== src/Client/Perf.antt =====
-- The reports that a client keeps of an i915 perf stream, lib/gputop-client-context.c: the
-- chunks of data and their reference counts, and the samples that hold them.
-- A chunk is named by an id that is never used again. A record header, a pointer into the data of
-- a chunk in the source, is the record that it points at. The time line's lengths, which the
-- source computes from a `float` number of seconds, are fields.
pub mod Contexts
pub mod Counting
pub mod Stored
pub mod Putting
pub mod Getting
pub mod Recorded
pub mod Kept
pub mod Started
pub mod Accumulated
pub mod Running
pub mod Period
pub mod Walk
pub mod Handled
pub mod Cleared
pub mod Reached
pub mod Timestamps
mod Examples
pub mod Recording
pub mod Stream
pub mod Emptied
use gputop.Base.{
  ℕ, ◌+◌, ◌-◌, ◌*◌, ◌/◌, ◌^◌, Bool, true, false, Option, none, some, List, [], ◌∷◌, ◌++◌, ltb, ◌==◌,
  if◌then◌else◌, get_or, u64, sub64, ◌>>=◌,
}
use gputop.Oa.Device.{DevInfo}
use gputop.Oa.Report.{Report, report_get_timestamp}
use gputop.Oa.Timebase.{timebase_scale_ns}
use gputop.Oa.Accumulator.{Accumulator}
use gputop.Oa.Record.{Configuration, PerfRecord, record_field, record_report, cpu_timestamp}
use gputop.Client.Streams.{Context}

-- `struct gputop_i915_perf_chunk`; its data stays with the caller that walks it.
pub record Chunk : Type 0 where
  pub id : ℕ
  pub refcount : ℕ

-- A chunk and a header in it: the source's `start_report` and `end_report`.
pub record Held : Type 0 where
  pub chunk : ℕ
  pub header : PerfRecord

-- `struct gputop_accumulated_samples`. A context is its `hw_id`, and `none` is NULL.
pub record Samples : Type 0 where
  pub context : Option ℕ
  pub timestamp_start : ℕ
  pub timestamp_end : ℕ
  pub start_report : Held
  pub end_report : Option Held
  pub accumulator : Accumulator

-- `struct gputop_hw_context`, without its name, its process and what the user interface keeps.
pub record HwContext : Type 0 where
  pub hw_id : ℕ
  pub n_samples : ℕ
  pub time_spent : ℕ
  pub current_graph_samples : Option Samples
  pub graphs : List Samples
  pub n_graphs : ℕ
  pub timeline_row : ℕ

-- The part of `struct gputop_client_context` that concerns the samples, on the part that concerns
-- the streams. `hw_contexts` is the list, which has the entries of `hw_contexts_table`: the source
-- changes both together. `max_graphs` is `oa_visible_timeline_s` over the aggregation period, and
-- `visible_timeline_ns` is it in nanoseconds.
pub record PerfContext : Type 0 where
  pub client : Context
  pub i915_perf_config : Configuration
  pub max_graphs : ℕ
  pub visible_timeline_ns : ℕ
  pub i915_perf_chunks : List Chunk
  pub next_chunk : ℕ
  pub last_chunk : Option ℕ
  pub last_header : Option PerfRecord
  pub last_oa_timestamp : ℕ
  pub current_graph_samples : Option Samples
  pub graphs : List Samples
  pub n_graphs : ℕ
  pub current_timeline_samples : Option Samples
  pub timelines : List Samples
  pub n_timelines : ℕ
  pub last_hw_id : ℕ
  pub hw_contexts : List HwContext

-- `ref_i915_perf_chunk`; `none` is a chunk that was freed.
unfoldable pub ref_i915_perf_chunk : ℕ → List Chunk → Option (List Chunk)
ref_i915_perf_chunk k [] = none
ref_i915_perf_chunk k (c ∷ cs) =
    let rest = ref_i915_perf_chunk k cs in
    if c.id == k
    then some (record c { refcount = c.refcount + 1 } ∷ cs)
    else (rest >>= λ cs'. some (c ∷ cs'))

-- `put_i915_perf_chunk` of a chunk that is not NULL; `none` as above. The chunk goes with the last
-- reference to it.
unfoldable pub put_i915_perf_chunk : ℕ → List Chunk → Option (List Chunk)
put_i915_perf_chunk k [] = none
put_i915_perf_chunk k (c ∷ cs) =
    let rest = put_i915_perf_chunk k cs in
    if c.id == k
    then if c.refcount - 1 == 0 then some cs else some (record c { refcount = c.refcount - 1 } ∷ cs)
    else (rest >>= λ cs'. some (c ∷ cs'))

-- The reference to a chunk that may be NULL.
unfoldable pub put_held : Option Held → List Chunk → Option (List Chunk)
put_held none cs = some cs
put_held (some held) cs = put_i915_perf_chunk held.chunk cs

-- The references that `put_accumulated_sample` gives up.
unfoldable pub put_reports : Samples → List Chunk → Option (List Chunk)
put_reports samples cs =
    put_i915_perf_chunk samples.start_report.chunk cs >>= λ cs1. put_held samples.end_report cs1

-- `get_i915_perf_chunk`: the new chunk is `ctx.next_chunk`.
unfoldable pub get_i915_perf_chunk : PerfContext → PerfContext
get_i915_perf_chunk ctx = record ctx {
  i915_perf_chunks = ctx.i915_perf_chunks ++ record { id = ctx.next_chunk; refcount = 1 } ∷ [];
  next_chunk = ctx.next_chunk + 1;
}

-- The 64-bit field at a byte offset of a record.
unfoldable pub field_u64 : ℕ → PerfRecord → ℕ
field_u64 offset header =
    get_or header.words (offset / 4) 0 + get_or header.words (offset / 4 + 1) 0 * 2 ^ 32

-- The processor's timestamp in a record, where the records have one.
unfoldable pub record_cpu_timestamp : Configuration → PerfRecord → Option ℕ
record_cpu_timestamp config header =
    record_field config cpu_timestamp >>= λ offset. some (field_u64 offset header)

-- The timestamp in the report of a record; `none` is the read through a NULL report.
unfoldable pub report_timestamp : Configuration → PerfRecord → Option ℕ
report_timestamp config header =
    record_report config header >>= λ report. some (report_get_timestamp report)

-- The timestamp of the last record, or `ts` where there is none.
unfoldable pub previous_timestamp : PerfContext → ℕ → Option ℕ
previous_timestamp ctx ts = elim ctx.last_header [
  | none ↦ some ts
  | some header ↦ report_timestamp ctx.i915_perf_config header
]

-- `i915_perf_timestamp`.
unfoldable pub i915_perf_timestamp : PerfContext → PerfRecord → Option ℕ
i915_perf_timestamp ctx header =
    if ctx.i915_perf_config.cpu_timestamps
    then record_cpu_timestamp ctx.i915_perf_config header
    else (report_timestamp ctx.i915_perf_config header >>= λ ts.
        previous_timestamp ctx ts >>= λ prev_ts.
        some
          (u64 (ctx.last_oa_timestamp + timebase_scale_ns ctx.client.devinfo (sub64 ts prev_ts))))
