-- ===== src/Client/Perf/Stream.antt =====
-- The walk over a chunk of an i915 perf stream, lib/gputop-client-context.c.
-- A chunk is the list of its records, as a header's size leads to the next one. The callback that
-- the user interface sets is taken to leave the samples alone.
use gputop.Base.{
  Bool, ℕ, not, ◌&&◌, ◌||◌, Option, none, some, List, [], ◌∷◌, ltb, ◌==◌, if◌then◌else◌, sub64,
  ◌>>=◌, maybe,
}
use gputop.Client.Perf.{
  Samples, Chunk, HwContext, PerfContext, ref_i915_perf_chunk, put_i915_perf_chunk,
  get_i915_perf_chunk, i915_perf_timestamp,
}
use gputop.Client.Perf.Contexts.{
  Store, get_sample_of, get_accumulated_sample, find_context, update_context,
}
use gputop.Oa.Report.{Report, report_get_ctx_id, invalid_ctx_id}
use gputop.Oa.Accumulator.{Accumulator, accumulate_reports}
use gputop.Oa.Record.{
  PerfRecord, record_report, record_sample, record_oa_report_lost, record_oa_buffer_lost,
}
use gputop.Client.Streams.{stop_sampling}
use gputop.Client.Perf.Recording.{
  record_contexts, i915_perf_record_for_time, i915_perf_record_for_hw_id,
}

-- The loop that gives every context its samples of a new aggregation period. `none` is the
-- assertion that it has none.
unfoldable pub start_contexts :
    PerfContext → ℕ → PerfRecord → List HwContext → List Chunk → Option Store
start_contexts ctx chunk header [] chunks = some ([], chunks)
start_contexts ctx chunk header (c ∷ cs) chunks =
    maybe c.current_graph_samples
      (get_sample_of ctx none chunk header chunks >>= λ got.
        start_contexts ctx chunk header cs got.1 >>= λ st.
        some (record c { current_graph_samples = some got.0 } ∷ st.0, st.1))
      (λ _. none)

-- The start of an aggregation period, where none runs.
unfoldable pub start_graphs : ℕ → PerfRecord → PerfContext → Option PerfContext
start_graphs chunk header ctx =
    maybe ctx.current_graph_samples
      (get_sample_of ctx none chunk header ctx.i915_perf_chunks >>= λ got.
        start_contexts ctx chunk header ctx.hw_contexts got.1 >>= λ st. some (record ctx {
          current_graph_samples = some got.0;
          hw_contexts = st.0;
          i915_perf_chunks = st.1;
        }))
      (λ _. some ctx)

-- The samples of the context that ran since the last report.
unfoldable pub get_timeline : PerfContext → Option PerfContext
get_timeline ctx = ctx.last_chunk >>= λ chunk. ctx.last_header >>= λ header.
    get_accumulated_sample ctx chunk header ctx.last_hw_id (ctx.hw_contexts, ctx.i915_perf_chunks)
    >>= λ got. some (record ctx {
      current_timeline_samples = some got.0;
      hw_contexts = got.1.0;
      i915_perf_chunks = got.1.1;
    })

-- They start where a context ran and has none.
unfoldable pub start_timeline : PerfContext → Option PerfContext
start_timeline ctx =
    maybe ctx.current_timeline_samples
      (if ctx.last_hw_id == invalid_ctx_id then some ctx else get_timeline ctx) (λ _. some ctx)

-- The time between the first and the last report of an accumulator.
abbrev pub elapsed : Accumulator → ℕ
elapsed a = sub64 a.last_timestamp a.first_timestamp

-- A change of the samples that a context accumulates on; `none` is a NULL pointer.
unfoldable pub accumulate_context : ℕ → Report → Report → PerfContext → Option PerfContext
accumulate_context context last report ctx = find_context context ctx.hw_contexts >>= λ c.
    c.current_graph_samples >>= λ s. accumulate_reports s.accumulator last report >>= λ result.
    some (record ctx {
      hw_contexts =
          update_context context
            (λ c. record c { current_graph_samples = some (record s { accumulator = result.1 }) })
            ctx.hw_contexts;
    })

-- The samples on the time line end where another context runs, or after the aggregation period.
unfoldable pub ends_timeline : PerfContext → ℕ → Bool × Accumulator → Bool
ends_timeline ctx hw_id result =
    result.0
    && (not (ctx.last_hw_id == hw_id) || ltb ctx.client.oa_aggregation_period_ns (elapsed result.1))

-- The accumulation on the time line.
unfoldable pub accumulate_samples :
    ℕ → PerfRecord → ℕ → Report → Report → Samples → PerfContext → Option PerfContext
accumulate_samples chunk header hw_id last report s ctx =
    accumulate_reports s.accumulator last report >>= λ result.
    let ctx1 = record ctx {
      current_timeline_samples = some (record s { accumulator = result.1 });
    } in
    if ends_timeline ctx hw_id result
    then i915_perf_record_for_hw_id chunk header ctx1
    else some ctx1

-- The accumulation for the context that ran between two reports, where one did.
unfoldable pub accumulate_timeline :
    ℕ → PerfRecord → ℕ → Report → Report → PerfContext → Option PerfContext
accumulate_timeline chunk header hw_id last report ctx =
    maybe ctx.current_timeline_samples (some ctx) (λ s. s.context >>= λ context.
    accumulate_samples chunk header hw_id last report s ctx >>= λ ctx1.
    accumulate_context context last report ctx1)

-- The end of an aggregation period, for the whole device and for every context.
unfoldable pub record_period : ℕ → PerfRecord → PerfContext → Option PerfContext
record_period chunk header ctx = i915_perf_record_for_time chunk header ctx >>= λ ctx1.
    record_contexts ctx1 chunk header ctx1.hw_contexts ctx1.i915_perf_chunks >>= λ recorded.
    some (record ctx1 { hw_contexts = recorded.0; i915_perf_chunks = recorded.1 })

-- The accumulation for the whole device.
unfoldable pub accumulate_graph :
    ℕ → PerfRecord → Report → Report → PerfContext → Option PerfContext
accumulate_graph chunk header last report ctx = ctx.current_graph_samples >>= λ s.
    accumulate_reports s.accumulator last report >>= λ result.
    let ctx1 = record ctx { current_graph_samples = some (record s { accumulator = result.1 }) } in
    if result.0 && ltb ctx.client.oa_aggregation_period_ns (elapsed result.1)
    then record_period chunk header ctx1
    else some ctx1

-- What a report after another one does.
unfoldable pub accumulate_pair :
    ℕ → PerfRecord → ℕ → Option Report → Report → PerfContext → Option PerfContext
accumulate_pair chunk header hw_id none report ctx = some ctx
accumulate_pair chunk header hw_id (some last) report ctx = start_timeline ctx >>= λ ctx1.
    accumulate_timeline chunk header hw_id last report ctx1 >>= λ ctx2.
    accumulate_graph chunk header last report ctx2

-- The reference to the last chunk, which may be NULL.
unfoldable pub put_last_chunk : Option ℕ → List Chunk → Option (List Chunk)
put_last_chunk none chunks = some chunks
put_last_chunk (some k) chunks = put_i915_perf_chunk k chunks

-- The record becomes the last one.
unfoldable pub remember : ℕ → PerfRecord → ℕ → PerfContext → Option PerfContext
remember chunk header hw_id ctx = i915_perf_timestamp ctx header >>= λ timestamp.
    put_last_chunk ctx.last_chunk ctx.i915_perf_chunks >>= λ chunks1.
    ref_i915_perf_chunk chunk chunks1 >>= λ chunks2. some (record ctx {
      last_oa_timestamp = timestamp;
      last_hw_id = hw_id;
      last_header = some header;
      last_chunk = some chunk;
      i915_perf_chunks = chunks2;
    })

-- The case of a sample in `i915_perf_accumulate`.
unfoldable pub accumulate_sample :
    ℕ → PerfRecord → Option Report → Report → PerfContext → Option PerfContext
accumulate_sample chunk header last report ctx =
    let hw_id = report_get_ctx_id ctx.client.devinfo report in
    start_graphs chunk header ctx >>= λ ctx1.
    accumulate_pair chunk header hw_id last report ctx1 >>= λ ctx2. remember chunk header hw_id ctx2

-- How the loop goes on after a record: with a last report, or not at all.
pub data Next : Type 0 where
  go : Option Report → PerfContext → Next
  return : PerfContext → Next

-- The `switch` on the type of a record.
unfoldable pub accumulate_record : ℕ → PerfRecord → Option Report → PerfContext → Option Next
accumulate_record chunk header last ctx =
    if header.kind == record_oa_buffer_lost
    then some (return (record ctx { client = stop_sampling ctx.client }))
    else if header.kind == record_oa_report_lost
    then some (go last ctx)
    else if header.kind == record_sample
    then (record_report ctx.i915_perf_config header >>= λ report.
        accumulate_sample chunk header last report ctx >>= λ ctx1. some (go (some report) ctx1))
    else some (return ctx)

-- The loop of `i915_perf_accumulate`.
unfoldable pub accumulate_records :
    ℕ → Option Report → List PerfRecord → PerfContext → Option PerfContext
accumulate_records chunk last [] ctx = some ctx
accumulate_records chunk last (header ∷ rest) ctx =
    accumulate_record chunk header last ctx >>= λ next. elim next [
      | return ctx1 ↦ some ctx1
      | go last1 ctx1 ↦ accumulate_records chunk last1 rest ctx1
    ]

-- The report of the last header.
unfoldable pub last_report : PerfContext → Option Report
last_report ctx = ctx.last_header >>= λ header. record_report ctx.i915_perf_config header

-- `i915_perf_accumulate`.
unfoldable pub i915_perf_accumulate : ℕ → List PerfRecord → PerfContext → Option PerfContext
i915_perf_accumulate chunk records ctx = accumulate_records chunk (last_report ctx) records ctx

abbrev pub with_chunks : PerfContext → List Chunk → PerfContext
with_chunks ctx chunks = record ctx { i915_perf_chunks = chunks }

-- `handle_i915_perf_data` of a message that is a list of records.
unfoldable pub handle_i915_perf_data : ℕ → List PerfRecord → PerfContext → Option PerfContext
handle_i915_perf_data stream_id records ctx =
    if stream_id == ctx.client.oa_stream
    then (i915_perf_accumulate ctx.next_chunk records (get_i915_perf_chunk ctx) >>= λ ctx1.
        put_i915_perf_chunk ctx.next_chunk ctx1.i915_perf_chunks >>= λ chunks.
        some (with_chunks ctx1 chunks))
    else some ctx
