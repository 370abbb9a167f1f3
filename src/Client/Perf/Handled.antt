-- ===== src/Client/Perf/Handled.antt =====
-- The invariant over whole messages of an i915 perf stream.
use gputop.Base.{
  ℕ, ◌+◌, ◌≡◌, sym, arith, Bool, Option, some, List, [], ◌∷◌, ◌++◌, ◌==◌, All, ◌>>=◌, Ensures,
  Ensures-some, Ensures-if, Ensures-bind, Ensures-mono,
}
use mathlib.Core.Path.{subst}
use gputop.Oa.Report.{Report}
use gputop.Oa.Record.{Configuration, PerfRecord}
use gputop.Client.Perf.{put_i915_perf_chunk, get_i915_perf_chunk, Chunk, PerfContext}
use gputop.Client.Perf.Stream.{
  accumulate_records, i915_perf_accumulate, handle_i915_perf_data, with_chunks, last_report,
}
use gputop.Client.Perf.Counting.{
  put_i915_perf_chunk-Holds, IsChunk, refcount, here, Holds, Holds-ext,
}
use gputop.Client.Perf.Stored.{held_by_contexts}
use gputop.Client.Perf.Kept.{Kept, outside}
use gputop.Client.Perf.Period.{KeptAny}
use gputop.Client.Perf.Walk.{IsRecord, accumulate_records-Kept}

-- The invariant between two messages.
abbrev pub IsKept : Configuration → PerfContext → Type 0
IsKept config ctx = (last : Option Report) × KeptAny config last (λ _. 0) ctx

refcount-new :
    (cs : List Chunk) (next j : ℕ)
    → refcount (cs ++ record { id = next; refcount = 1 } ∷ []) j ≡ here next j + refcount cs j
refcount-new [] next j = omega arith
refcount-new (c ∷ cs) next j = omega (arith, refcount-new cs next j)

live-new :
    (cs : List Chunk) (next : ℕ)
    → All (IsChunk next) cs
    → All (IsChunk (next + 1)) (cs ++ record { id = next; refcount = 1 } ∷ [])
live-new [] next a = ((omega arith, omega arith), tt)
live-new (c ∷ cs) next a = ((a.0.0, omega (arith, a.0.1)), live-new cs next a.1)

get_i915_perf_chunk-Kept :
    {config : Configuration} {last : Option Report} {b : Bool} (ctx : PerfContext)
    → Kept config last b (λ _. 0) ctx
    → Kept config last b (here ctx.next_chunk) (get_i915_perf_chunk ctx)
unfolding get_i915_perf_chunk last_report
get_i915_perf_chunk-Kept ctx k = record {
  same = k.same;
  ready = record { set = k.ready.set; last = k.ready.last };
  last_is = k.last_is;
  last_whole = k.last_whole;
  current = k.current;
  graphs = k.graphs;
  n_graphs = k.n_graphs;
  few = k.few;
  timeline = k.timeline;
  timelines = k.timelines;
  n_timelines = k.n_timelines;
  stored = record {
    contexts = k.stored.contexts;
    samples = k.stored.samples;
    chunks = record {
      counts = λ j.
          omega
            (arith, refcount-new ctx.i915_perf_chunks ctx.next_chunk j, k.stored.chunks.counts j);
      live = live-new ctx.i915_perf_chunks ctx.next_chunk k.stored.chunks.live;
    };
  };
}

here_it : (k : ℕ) → here k k ≡ 1
here_it k = ground arith

put_chunk-Kept :
    {config : Configuration} {last : Option Report} {b : Bool} (chunk : ℕ) (ctx : PerfContext)
    → Kept config last b (here chunk) ctx
    → Ensures
        (put_i915_perf_chunk chunk ctx.i915_perf_chunks >>= λ chunks. some (with_chunks ctx chunks))
        (Kept config last b (λ _. 0))
unfolding last_report
put_chunk-Kept chunk ctx k =
    let all : Holds ctx.next_chunk
        (λ j. here chunk j + (held_by_contexts ctx.hw_contexts j + (outside ctx j + 0)))
        ctx.i915_perf_chunks =
      Holds-ext k.stored.chunks (λ j. omega arith) in
    Ensures-bind (put_i915_perf_chunk-Holds chunk all) (λ chunks v. Ensures-some _ (record {
      same = k.same;
      ready = record { set = k.ready.set; last = k.ready.last };
      last_is = k.last_is;
      last_whole = k.last_whole;
      current = k.current;
      graphs = k.graphs;
      n_graphs = k.n_graphs;
      few = k.few;
      timeline = k.timeline;
      timelines = k.timelines;
      n_timelines = k.n_timelines;
      stored = record { contexts = k.stored.contexts; samples = k.stored.samples; chunks = v };
    }))

-- `handle_i915_perf_data`, on a state with the invariant and records in which every sample holds a
-- whole report, fails no assertion, reads no NULL pointer and no chunk or context that was freed,
-- and keeps the invariant: every chunk has the count of the references to it, every context the
-- count of the samples that use it, and the lists have their counters.
pub handle_i915_perf_data-IsKept :
    (config : Configuration) (stream_id : ℕ) (records : List PerfRecord) (ctx : PerfContext)
    → All (IsRecord config) records
    → IsKept config ctx
    → Ensures (handle_i915_perf_data stream_id records ctx) (IsKept config)
unfolding handle_i915_perf_data i915_perf_accumulate
handle_i915_perf_data-IsKept config stream_id records ctx s k =
    Ensures-if (stream_id == ctx.client.oa_stream)
      (λ _.
        let k0 = get_i915_perf_chunk-Kept ctx k.1.1 in
        Ensures-bind
          (subst
            (λ last.
              Ensures (accumulate_records ctx.next_chunk last records (get_i915_perf_chunk ctx))
                (λ ctx'. (last' : Option Report) × KeptAny config last' (here ctx.next_chunk) ctx'))
            (sym k0.last_is)
            (accumulate_records-Kept config ctx.next_chunk (omega (arith, here_it ctx.next_chunk))
              records k.0 (get_i915_perf_chunk ctx) s (k.1.0, k0)))
          (λ ctx1 k1.
            Ensures-mono (put_chunk-Kept ctx.next_chunk ctx1 k1.1.1)
              (λ ctx2 k2. (k1.0, (k1.1.0, k2)))))
      (λ _. Ensures-some _ k)
