-- ===== src/Client/Perf/Reached.antt =====
-- Every state that a client reaches, in any order of messages, restarts and changes of streams.
use gputop.Base.{
  ℕ, ◌≡◌, refl, arith, false, none, some, List, All, Ensures, Ensures-of, Ensures-result,
}
use gputop.Oa.Accumulator.Formats.{IsFormat}
use gputop.Oa.Record.{Configuration, PerfRecord}
use gputop.Client.Streams.{Context}
use gputop.Client.Perf.{PerfContext}
use gputop.Client.Perf.Stream.{handle_i915_perf_data, last_report}
use gputop.Client.Perf.Emptied.{client_context_init, i915_perf_empty_samples}
use gputop.Client.Perf.Walk.{IsRecord, with_client-Kept}
use gputop.Client.Perf.Handled.{IsKept, handle_i915_perf_data-IsKept}
use gputop.Client.Perf.Cleared.{IsEmpty, i915_perf_empty_samples-IsEmpty}

-- There is a metric set, of a supported format.
abbrev pub HasSet : Context → Type 0
HasSet client = Ensures client.metric_set (λ set. IsFormat set.perf_oa_format)

-- What happens to the samples: a message of the stream, the emptying before a stream is opened,
-- and anything that changes the streams and leaves a metric set.
pub data Step (config : Configuration) : PerfContext → PerfContext → Type 0 where
  message :
      (stream_id : ℕ) (records : List PerfRecord) (a b : PerfContext)
      → All (IsRecord config) records
      → handle_i915_perf_data stream_id records a ≡ some b
      → Step config a b
  emptied : (a b : PerfContext) → i915_perf_empty_samples a ≡ some b → Step config a b
  streams :
      (a : PerfContext) (client : Context)
      → HasSet client
      → Step config a (record a { client = client })

pub data Reaches (config : Configuration) (start : PerfContext) : PerfContext → Type 0 where
  begin : Reaches config start start
  next : {a b : PerfContext} → Reaches config start a → Step config a b → Reaches config start b

Step-IsKept :
    {config : Configuration} {a b : PerfContext}
    → Step config a b
    → IsKept config a
    → IsKept config b
Step-IsKept {config = config} (message id records a b whole e) k =
    Ensures-result (handle_i915_perf_data-IsKept config id records a whole k) e
Step-IsKept {config = config} (emptied a b e) k =
    (Ensures-result (i915_perf_empty_samples-IsEmpty config a k) e).0
Step-IsKept (streams a client set) k = (k.0, (k.1.0, with_client-Kept a client set k.1.1))

Reaches-IsKept :
    {config : Configuration} {a b : PerfContext}
    → IsKept config a
    → Reaches config a b
    → IsKept config b
Reaches-IsKept k begin = k
Reaches-IsKept k (next r s) = Step-IsKept s (Reaches-IsKept k r)

-- A client that has received nothing yet, under the settings that it was given.
abbrev pub start : Context → Configuration → ℕ → ℕ → PerfContext
start client config max_graphs visible_timeline_ns = record (client_context_init client) {
  i915_perf_config = config;
  max_graphs = max_graphs;
  visible_timeline_ns = visible_timeline_ns;
}

start-IsKept :
    (client : Context) (config : Configuration) (max_graphs visible_ns : ℕ)
    → HasSet client
    → IsKept config (start client config max_graphs visible_ns)
unfolding client_context_init last_report
start-IsKept client config max_graphs visible_ns set = (
  none,
  (
    false,
    record {
      same = refl;
      ready = record { set = set; last = tt };
      last_is = refl;
      last_whole = tt;
      current = tt;
      graphs = tt;
      n_graphs = refl;
      few = omega arith;
      timeline = tt;
      timelines = tt;
      n_timelines = refl;
      stored = record {
        contexts = tt;
        samples = λ h. omega arith;
        chunks = record { counts = λ j. omega arith; live = tt };
      };
    },
  ),
)

-- From its start, in any order of messages with whole samples, restarts and changes of the streams
-- that leave a metric set, a client only reaches states with the invariant, and in each of them the
-- next message is handled without a fault and the samples can be emptied down to the last chunk
-- and hardware context.
pub Reaches-no_fault :
    (client : Context) (config : Configuration) (max_graphs visible_ns : ℕ) (ctx : PerfContext)
    → HasSet client
    → Reaches config (start client config max_graphs visible_ns) ctx
    → IsKept config ctx
      × ((stream_id : ℕ) (records : List PerfRecord)
          → All (IsRecord config) records
          → Ensures
              (handle_i915_perf_data stream_id records ctx)
              (Reaches config (start client config max_graphs visible_ns)))
      × Ensures
          (i915_perf_empty_samples ctx)
          (λ ctx'. Reaches config (start client config max_graphs visible_ns) ctx' × IsEmpty ctx')
Reaches-no_fault client config max_graphs visible_ns ctx set r =
    let kept = Reaches-IsKept (start-IsKept client config max_graphs visible_ns set) r in
    let emptied = i915_perf_empty_samples-IsEmpty config ctx kept in
    (
      kept,
      λ id records whole.
          let done = handle_i915_perf_data-IsKept config id records ctx whole kept in
          Ensures-of done.result done.runs
            (next r (message id records ctx done.result whole done.runs)),
      Ensures-of emptied.result emptied.runs
          (next r (Step.emptied ctx emptied.result emptied.runs), emptied.holds.1),
    )
