-- ===== src/Client/Perf/Emptied.antt =====
-- The samples at the start of a client and after `i915_perf_empty_samples`,
-- lib/gputop-client-context.c.
use gputop.Base.{true, false, Option, none, some, List, [], ◌∷◌, ◌>>=◌, when_empty}
use gputop.Client.Streams.{Context}
use gputop.Client.Perf.{Samples, PerfContext}
use gputop.Client.Perf.Contexts.{Store, put_accumulated_sample, put_all, put_current}
use gputop.Oa.Report.{invalid_ctx_id}
use gputop.Client.Perf.Stream.{put_last_chunk}

-- `gputop_client_context_init` on a zeroed client, with the streams that it has.
unfoldable pub client_context_init : Context → PerfContext
client_context_init client = record {
  client = client;
  i915_perf_config = record { oa_reports = true; cpu_timestamps = false; gpu_timestamps = false };
  max_graphs = 116;
  visible_timeline_ns = 7000000000;
  i915_perf_chunks = [];
  next_chunk = 0;
  last_chunk = none;
  last_header = none;
  last_oa_timestamp = 0;
  current_graph_samples = none;
  graphs = [];
  n_graphs = 0;
  current_timeline_samples = none;
  timelines = [];
  n_timelines = 0;
  last_hw_id = 0;
  hw_contexts = [];
}

-- `put_accumulated_sample` on the whole time line.
unfoldable pub put_timelines : List Samples → Store → Option Store
put_timelines [] st = some st
put_timelines (s ∷ ss) st = put_accumulated_sample s st >>= λ st1. put_timelines ss st1

unfoldable pub put_current_timeline : Option Samples → Store → Option Store
put_current_timeline none st = some st
put_current_timeline (some s) st = put_accumulated_sample s st

-- The half of `i915_perf_empty_samples` about the time line. Clearing a table whose list still has
-- contexts would part the two: it is a fault here.
unfoldable pub empty_timelines : PerfContext → Option PerfContext
empty_timelines ctx = put_timelines ctx.timelines (ctx.hw_contexts, ctx.i915_perf_chunks) >>= λ st1.
    put_current_timeline ctx.current_timeline_samples st1 >>= λ st2. when_empty st2.0 (
      some (record ctx {
        timelines = [];
        current_timeline_samples = none;
        n_timelines = 0;
        last_hw_id = invalid_ctx_id;
        hw_contexts = [];
        i915_perf_chunks = st2.1;
      }))

-- The half about the graphs and the last chunk.
unfoldable pub empty_graphs : PerfContext → Option PerfContext
empty_graphs ctx = put_all ctx.graphs ctx.i915_perf_chunks >>= λ chunks1.
    put_current ctx.current_graph_samples chunks1 >>= λ chunks2.
    put_last_chunk ctx.last_chunk chunks2 >>= λ chunks3. some (record ctx {
      graphs = [];
      current_graph_samples = none;
      n_graphs = 0;
      last_chunk = none;
      last_header = none;
      last_oa_timestamp = ctx.visible_timeline_ns;
      i915_perf_chunks = chunks3;
    })

-- `i915_perf_empty_samples`; `none` is also the assertion that no chunk is left.
unfoldable pub i915_perf_empty_samples : PerfContext → Option PerfContext
i915_perf_empty_samples ctx = empty_timelines ctx >>= λ ctx1.
    empty_graphs ctx1 >>= λ ctx2. when_empty ctx2.i915_perf_chunks (some ctx2)
