-- ===== src/Client/Perf/Recording.antt =====
-- The end of samples, at which they join their list, lib/gputop-client-context.c.
use gputop.Base.{
  ℕ, ◌+◌, ◌-◌, true, false, Option, none, some, List, [], ◌∷◌, ◌++◌, ltb, if◌then◌else◌, sub64,
  ◌>>=◌,
}
use gputop.Client.Perf.{
  Chunk, Samples, HwContext, PerfContext, ref_i915_perf_chunk, put_reports, record_cpu_timestamp,
  i915_perf_timestamp,
}
use gputop.Client.Perf.Contexts.{Store, put_accumulated_sample, hw_context_add_time}
use gputop.Oa.Record.{PerfRecord}

-- The samples, ended at a report at a time.
unfoldable pub ended : ℕ → PerfRecord → ℕ → Samples → Samples
ended chunk header timestamp s = record s {
  end_report = some (record { chunk = chunk; header = header });
  timestamp_end = timestamp;
}

-- "Remove excess of samples" of the two lists of graph samples, and their counter. `none` is the
-- first entry of an empty list.
unfoldable pub remove_excess :
    ℕ → ℕ → List Samples → List Chunk → Option (ℕ × List Samples × List Chunk)
remove_excess max_graphs n_graphs [] chunks =
    if ltb max_graphs n_graphs then none else some (n_graphs, [], chunks)
remove_excess max_graphs n_graphs (s ∷ ss) chunks =
    if ltb max_graphs n_graphs
    then (put_reports s chunks >>= λ chunks1. remove_excess max_graphs (n_graphs - 1) ss chunks1)
    else some (n_graphs, s ∷ ss, chunks)

-- The end of a context's samples: the processor's timestamp, or the last one accumulated.
unfoldable pub end_timestamp : PerfContext → PerfRecord → Samples → ℕ
end_timestamp ctx header s = elim (record_cpu_timestamp ctx.i915_perf_config header) [
  | none ↦ s.accumulator.last_timestamp
  | some t ↦ t
]

-- `hw_context_record_for_time`, without the percentage that is shown: the context and the chunks.
unfoldable pub hw_context_record_for_time :
    PerfContext → ℕ → PerfRecord → HwContext → List Chunk → Option (HwContext × List Chunk)
hw_context_record_for_time ctx chunk header context chunks = context.current_graph_samples >>= λ s.
    ref_i915_perf_chunk chunk chunks >>= λ chunks1.
    let timestamp = end_timestamp ctx header s in
    remove_excess ctx.max_graphs context.n_graphs context.graphs chunks1 >>= λ left. some (
      record context {
        current_graph_samples = none;
        graphs = left.1 ++ ended chunk header timestamp s ∷ [];
        n_graphs = left.0 + 1;
      },
      left.2,
    )

-- The loop over the contexts at the end of an aggregation period.
unfoldable pub record_contexts :
    PerfContext → ℕ → PerfRecord → List HwContext → List Chunk → Option Store
record_contexts ctx chunk header [] chunks = some ([], chunks)
record_contexts ctx chunk header (c ∷ cs) chunks =
    hw_context_record_for_time ctx chunk header c chunks >>= λ first.
    record_contexts ctx chunk header cs first.1 >>= λ st. some (first.0 ∷ st.0, st.1)

-- `i915_perf_record_for_time`; `none` is a NULL `current_graph_samples`.
unfoldable pub i915_perf_record_for_time : ℕ → PerfRecord → PerfContext → Option PerfContext
i915_perf_record_for_time chunk header ctx = ctx.current_graph_samples >>= λ s.
    ref_i915_perf_chunk chunk ctx.i915_perf_chunks >>= λ chunks1.
    i915_perf_timestamp ctx header >>= λ timestamp.
    remove_excess ctx.max_graphs ctx.n_graphs ctx.graphs chunks1 >>= λ left. some (record ctx {
      current_graph_samples = none;
      graphs = left.1 ++ ended chunk header timestamp s ∷ [];
      n_graphs = left.0 + 1;
      i915_perf_chunks = left.2;
    })

-- "Remove excess of samples" of the time line, at the end of new samples: the counter, the list
-- and the store.
unfoldable pub remove_expired : ℕ → ℕ → ℕ → List Samples → Store → Option (ℕ × List Samples × Store)
remove_expired visible_ns now n [] st = some (n, [], st)
remove_expired visible_ns now n (s ∷ ss) st =
    if ltb visible_ns (sub64 now s.timestamp_start)
    then (hw_context_add_time s false st.0 >>= λ cs.
        put_accumulated_sample s (cs, st.1) >>= λ st1. remove_expired visible_ns now (n - 1) ss st1)
    else some (n, s ∷ ss, st)

-- `i915_perf_record_for_hw_id`; `none` is a NULL `current_timeline_samples`.
unfoldable pub i915_perf_record_for_hw_id : ℕ → PerfRecord → PerfContext → Option PerfContext
i915_perf_record_for_hw_id chunk header ctx = ctx.current_timeline_samples >>= λ s.
    ref_i915_perf_chunk chunk ctx.i915_perf_chunks >>= λ chunks1.
    i915_perf_timestamp ctx header >>= λ timestamp.
    remove_expired ctx.visible_timeline_ns timestamp ctx.n_timelines ctx.timelines
      (ctx.hw_contexts, chunks1)
    >>= λ left. hw_context_add_time (ended chunk header timestamp s) true left.2.0 >>= λ cs.
        some (record ctx {
          current_timeline_samples = none;
          timelines = left.1 ++ ended chunk header timestamp s ∷ [];
          n_timelines = left.0 + 1;
          hw_contexts = cs;
          i915_perf_chunks = left.2.1;
        })
