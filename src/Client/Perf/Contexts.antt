-- ===== src/Client/Perf/Contexts.antt =====
-- The samples and the hardware contexts of lib/gputop-client-context.c.
-- A sample of a context holds the context and a context holds samples without a context, so the
-- mutual recursion of the source is two levels deep, and each level is a definition. The list of
-- samples to use again only saves an allocation, and is left out.
use gputop.Base.{
  ℕ, ◌+◌, ◌-◌, Bool, Option, none, some, List, [], ◌∷◌, ◌++◌, ◌==◌, if◌then◌else◌, length, u64,
  sub64, ◌>>=◌, maybe,
}
use gputop.Oa.Accumulator.{accumulator_init}
use gputop.Oa.Record.{PerfRecord, record_report}
use gputop.Client.Perf.{
  Chunk, Samples, HwContext, PerfContext, ref_i915_perf_chunk, put_reports, i915_perf_timestamp,
}

-- What `get_accumulated_sample` fills in, but for the reference to the chunk.
unfoldable pub new_samples : PerfContext → Option ℕ → ℕ → PerfRecord → Option Samples
new_samples ctx context chunk header = ctx.client.metric_set >>= λ metric_set.
    accumulator_init ctx.client.devinfo metric_set ctx.client.oa_aggregation_period_ns
      (record_report ctx.i915_perf_config header)
    >>= λ accumulator. i915_perf_timestamp ctx header >>= λ timestamp. some (record {
      context = context;
      timestamp_start = timestamp;
      timestamp_end = 0;
      start_report = record { chunk = chunk; header = header };
      end_report = none;
      accumulator = accumulator;
    })

-- The contexts and the chunks of a `PerfContext`, which putting a sample away changes.
abbrev pub Store : Type 0
Store = List HwContext × List Chunk

-- `get_accumulated_sample`, after the context has been found: the samples and the chunks.
unfoldable pub get_sample_of :
    PerfContext → Option ℕ → ℕ → PerfRecord → List Chunk → Option (Samples × List Chunk)
get_sample_of ctx context chunk header chunks = new_samples ctx context chunk header >>= λ samples.
    ref_i915_perf_chunk chunk chunks >>= λ chunks1. some (samples, chunks1)

-- `_mesa_hash_table_search` on `hw_contexts_table`.
unfoldable pub find_context : ℕ → List HwContext → Option HwContext
find_context hw_id [] = none
find_context hw_id (c ∷ cs) = if c.hw_id == hw_id then some c else find_context hw_id cs

-- A context that changes in place.
unfoldable pub update_context : ℕ → (HwContext → HwContext) → List HwContext → List HwContext
update_context hw_id f [] = []
update_context hw_id f (c ∷ cs) =
    if c.hw_id == hw_id then f c ∷ cs else c ∷ update_context hw_id f cs

-- `list_del` of a context.
unfoldable pub remove_context : ℕ → List HwContext → List HwContext
remove_context hw_id [] = []
remove_context hw_id (c ∷ cs) = if c.hw_id == hw_id then cs else c ∷ remove_context hw_id cs

-- The loop that numbers the rows of the time line again.
unfoldable pub number_rows : ℕ → List HwContext → List HwContext
number_rows i [] = []
number_rows i (c ∷ cs) = record c { timeline_row = i } ∷ number_rows (i + 1) cs

abbrev pub one_sample_more : HwContext → HwContext
one_sample_more c = record c { n_samples = c.n_samples + 1 }

abbrev pub one_sample_less : HwContext → HwContext
one_sample_less c = record c { n_samples = c.n_samples - 1 }

abbrev pub first_seen : ℕ → ℕ → Samples → HwContext
first_seen hw_id row samples = record {
  hw_id = hw_id;
  n_samples = 1;
  time_spent = 0;
  current_graph_samples = some samples;
  graphs = [];
  n_graphs = 0;
  timeline_row = row;
}

-- `get_hw_context` of a context that is not in the table; `none` is the read through a NULL
-- `current_graph_samples`.
unfoldable pub new_hw_context : PerfContext → ℕ → Store → Option Store
new_hw_context ctx hw_id st = ctx.current_graph_samples >>= λ current.
    get_sample_of ctx none current.start_report.chunk current.start_report.header st.1 >>= λ got.
    some (st.0 ++ first_seen hw_id (length st.0) got.0 ∷ [], got.1)

-- `get_hw_context`.
unfoldable pub get_hw_context : PerfContext → ℕ → Store → Option Store
get_hw_context ctx hw_id st =
    maybe (find_context hw_id st.0) (new_hw_context ctx hw_id st)
      (λ _. some (update_context hw_id one_sample_more st.0, st.1))

-- `get_accumulated_sample` of a context: the samples and the store. Without one, where `hw_id` is
-- invalid, it is `get_sample_of`.
unfoldable pub get_accumulated_sample :
    PerfContext → ℕ → PerfRecord → ℕ → Store → Option (Samples × Store)
get_accumulated_sample ctx chunk header hw_id st = get_hw_context ctx hw_id st >>= λ st1.
    get_sample_of ctx (some hw_id) chunk header st1.1 >>= λ got. some (got.0, (st1.0, got.1))

-- `put_accumulated_sample` on a list of samples without a context.
unfoldable pub put_all : List Samples → List Chunk → Option (List Chunk)
put_all [] chunks = some chunks
put_all (s ∷ ss) chunks = put_reports s chunks >>= λ chunks1. put_all ss chunks1

-- The same on samples that may be NULL.
unfoldable pub put_current : Option Samples → List Chunk → Option (List Chunk)
put_current none chunks = some chunks
put_current (some s) chunks = put_reports s chunks

-- The end of a context: its samples go, and the rows of the others are counted again.
unfoldable pub free_context : ℕ → HwContext → Store → Option Store
free_context hw_id context st = put_all context.graphs st.1 >>= λ chunks1.
    put_current context.current_graph_samples chunks1 >>= λ chunks2.
    some (number_rows 0 (remove_context hw_id st.0), chunks2)

-- `put_hw_context` of a context that is not NULL; `none` is a context that was freed.
unfoldable pub put_hw_context : ℕ → Store → Option Store
put_hw_context hw_id st = find_context hw_id st.0 >>= λ context.
    if context.n_samples - 1 == 0
    then free_context hw_id context st
    else some (update_context hw_id one_sample_less st.0, st.1)

-- `put_hw_context` of a context that may be NULL.
unfoldable pub put_context : Option ℕ → Store → Option Store
put_context none st = some st
put_context (some hw_id) st = put_hw_context hw_id st

-- `put_accumulated_sample`.
unfoldable pub put_accumulated_sample : Samples → Store → Option Store
put_accumulated_sample s st = put_reports s st.1 >>= λ chunks. put_context s.context (st.0, chunks)

-- The time that a sample lasted, on 64 bits.
abbrev pub duration : Samples → ℕ
duration s = sub64 s.timestamp_end s.timestamp_start

abbrev pub spend : Bool → ℕ → HwContext → HwContext
spend add delta c = record c {
  time_spent = if add then u64 (c.time_spent + delta) else sub64 c.time_spent delta;
}

-- `hw_context_add_time`; `none` is a sample without a context.
unfoldable pub hw_context_add_time : Samples → Bool → List HwContext → Option (List HwContext)
hw_context_add_time s add cs =
    s.context >>= λ hw_id. some (update_context hw_id (spend add (duration s)) cs)
