-- ===== src/Client/Streams.antt =====
-- The streams that a client opens at the server, lib/gputop-client-context.c.
-- Ids are natural numbers: the source's 32-bit counter wraps after 2^32 streams. A request is
-- what `send_pb_message` is given. The tables and the stored reports that the same functions
-- clear are not part of this state.
pub mod Owned
pub mod Restart
use gputop.Base.{
  ℕ, zero, suc, ◌+◌, Bool, true, false, Option, none, some, List, [], ◌∷◌, ◌++◌, String, ltb, ◌==◌,
  if◌then◌else◌, ◌>>=◌,
}
use gputop.Oa.Device.{DevInfo, MetricSet}
use gputop.Oa.Timebase.{oa_exponent_to_period_ns, time_to_oa_exponent}

-- The configurations of a `Gputop__OpenStream` that the client sends.
pub data StreamType : Type 0 where
  oa_stream_info : (uuid : String) (period_exponent : ℕ) → StreamType
  tracepoint_config : (id cpu : ℕ) → StreamType
  cpu_stats_info : (sample_period_ms : ℕ) → StreamType

pub data Request : Type 0 where
  open_request : (id : ℕ) → StreamType → Request
  close_request : (id : ℕ) → Request

-- `struct gputop_perf_tracepoint`, with the ids of its streams, head first.
pub record Tracepoint : Type 0 where
  pub event_id : ℕ
  pub streams : List ℕ

-- The part of `struct gputop_client_context` that concerns streams; a stream is its id, and 0 is
-- a closed one. `sent` has the last request first.
pub record Context : Type 0 where
  pub devinfo : DevInfo
  pub metric_set : Option MetricSet
  pub n_cpus : ℕ
  pub is_sampling : Bool
  pub oa_aggregation_period_ns : ℕ
  pub oa_sampling_period_ns : ℕ
  pub cpu_stats_sampling_period_ms : ℕ
  pub stream_id : ℕ
  pub streams : List ℕ
  pub oa_stream : ℕ
  pub cpu_stats_stream : ℕ
  pub perf_tracepoints : List Tracepoint
  pub sent : List Request

-- `list_del` of the stream with an id.
abbrev pub remove : ℕ → List ℕ → List ℕ
remove id [] = []
remove id (s ∷ rest) = if id == s then rest else s ∷ remove id rest

-- `open_stream`: the new id is `ctx.stream_id`.
unfoldable pub open_stream : StreamType → Context → Context
open_stream config ctx = record ctx {
  stream_id = ctx.stream_id + 1;
  streams = ctx.stream_id ∷ ctx.streams;
  sent = open_request ctx.stream_id config ∷ ctx.sent;
}

-- `close_stream`, which the caller follows by writing 0 to the stream's id.
unfoldable pub close_stream : ℕ → Context → Context
close_stream id ctx =
    if id == 0
    then ctx
    else record ctx { streams = remove id ctx.streams; sent = close_request id ∷ ctx.sent }

-- `close_i915_perf_stream`.
unfoldable pub close_i915_perf_stream : Context → Context
unfolding close_stream
close_i915_perf_stream ctx = record (close_stream ctx.oa_stream ctx) { oa_stream = 0 }

-- The sampling period, lowered to one that does not exceed the aggregation period.
unfoldable pub lowered_period : Context → Option ℕ
lowered_period ctx =
    if ltb ctx.oa_aggregation_period_ns ctx.oa_sampling_period_ns
    then (time_to_oa_exponent ctx.devinfo ctx.oa_aggregation_period_ns >>= λ exponent.
        some (oa_exponent_to_period_ns ctx.devinfo exponent))
    else some ctx.oa_sampling_period_ns

-- `open_i915_perf_stream` with a metric set.
unfoldable pub open_oa_stream : MetricSet → Context → Option Context
open_oa_stream metric_set ctx = lowered_period ctx >>= λ period.
    time_to_oa_exponent ctx.devinfo period >>= λ exponent.
    some
      (record (open_stream (oa_stream_info metric_set.hw_config_guid exponent)
        (record ctx { oa_sampling_period_ns = period })) { oa_stream = ctx.stream_id })

-- `open_i915_perf_stream`; `none` is its assertion, or the unreachable end of the search for an
-- exponent.
unfoldable pub open_i915_perf_stream : Context → Option Context
open_i915_perf_stream ctx = elim ctx.metric_set [
  | none ↦ some ctx
  | some metric_set ↦ if ctx.oa_stream == 0 then open_oa_stream metric_set ctx else none
]

-- The loop of `close_perf_tracepoint`.
unfoldable pub close_all : List ℕ → Context → Context
close_all [] ctx = ctx
close_all (id ∷ ids) ctx = close_all ids (close_stream id ctx)

-- The loop of `open_perf_tracepoint` over the processors from `cpu` on: the ids and the context.
unfoldable pub open_cpus : ℕ → ℕ → ℕ → List ℕ → Context → List ℕ × Context
open_cpus zero cpu event_id ids ctx = (ids, ctx)
open_cpus (suc n) cpu event_id ids ctx =
    open_cpus n (cpu + 1) event_id (ctx.stream_id ∷ ids)
      (open_stream (tracepoint_config event_id cpu) ctx)

-- `close_perf_tracepoints_streams`: the tracepoints and the context after a list of them.
unfoldable pub close_tracepoints : List Tracepoint → Context → List Tracepoint × Context
close_tracepoints [] ctx = ([], ctx)
close_tracepoints (tp ∷ tps) ctx =
    let rest = close_tracepoints tps (close_all tp.streams ctx) in
    (record tp { streams = [] } ∷ rest.0, rest.1)

-- `open_perf_tracepoints_streams`, each as in `open_perf_tracepoint`.
unfoldable pub open_tracepoints : List Tracepoint → Context → List Tracepoint × Context
open_tracepoints [] ctx = ([], ctx)
open_tracepoints (tp ∷ tps) ctx =
    let opened = open_cpus ctx.n_cpus 0 tp.event_id [] (close_all tp.streams ctx) in
    let rest = open_tracepoints tps opened.1 in (record tp { streams = opened.0 } ∷ rest.0, rest.1)

abbrev pub with_tracepoints : List Tracepoint × Context → Context
with_tracepoints closed = record closed.1 { perf_tracepoints = closed.0 }

-- `gputop_client_context_stop_sampling`.
unfoldable pub stop_sampling : Context → Context
stop_sampling ctx =
    let oa_closed = close_i915_perf_stream ctx in
    if ctx.is_sampling
    then record (with_tracepoints (close_tracepoints ctx.perf_tracepoints oa_closed)) {
      is_sampling = false;
    }
    else ctx

-- `gputop_client_context_start_sampling`.
unfoldable pub start_sampling : Context → Option Context
start_sampling ctx = open_i915_perf_stream (stop_sampling ctx) >>= λ opened.
    some (record (with_tracepoints (open_tracepoints opened.perf_tracepoints opened)) {
      is_sampling = true;
    })

-- `open_cpu_stats_stream`.
unfoldable pub open_cpu_stats_stream : Context → Context
open_cpu_stats_stream ctx =
    record (open_stream (cpu_stats_info ctx.cpu_stats_sampling_period_ms) ctx) {
      cpu_stats_stream = ctx.stream_id;
    }

-- `gputop_client_context_update_cpu_stream`.
unfoldable pub update_cpu_stream : Context → ℕ → Context
update_cpu_stream ctx sampling_period_ms =
    open_cpu_stats_stream (record (close_stream ctx.cpu_stats_stream ctx) {
      cpu_stats_stream = 0;
      cpu_stats_sampling_period_ms = sampling_period_ms;
    })

-- `find_stream`.
unfoldable pub find_stream : List ℕ → ℕ → Option ℕ
find_stream [] stream_id = none
find_stream (s ∷ rest) stream_id = if s == stream_id then some s else find_stream rest stream_id
