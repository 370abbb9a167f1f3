-- ===== src/Client/Perf/Cleared.antt =====
-- `i915_perf_empty_samples` gives everything up: no chunk and no hardware context is left.
use gputop.Base.{
  Ensures-when_empty, ℕ, ◌+◌, ◌≡◌, refl, sym, ap, ◌∙◌, arith, Bool, false, Option, none, some, List,
  [], ◌∷◌, length, All, Ensures, Ensures-some, Ensures-bind,
}
use mathlib.Core.Path.{subst}
use gputop.Oa.Report.{Report}
use gputop.Oa.Record.{Configuration}
use gputop.Client.Perf.{Chunk, Samples, HwContext, PerfContext}
use gputop.Client.Perf.Contexts.{Store}
use gputop.Client.Perf.Stream.{last_report}
use gputop.Client.Perf.Counting.{
  put_all-Holds, put_current-Holds, refcount, held_by, held_by_all, held_by_current, Holds,
  Holds-ext,
}
use gputop.Client.Perf.Stored.{
  n_samples_at, Stored, uses, uses_all, n_samples_of, held_by_contexts, IsContext,
}
use gputop.Client.Perf.Putting.{put_accumulated_sample-Stored, Stored-ext}
use gputop.Client.Perf.Kept.{Kept, held_last, uses_current}
use gputop.Client.Perf.Walk.{put_last_chunk-Holds}
use gputop.Client.Perf.Handled.{IsKept}
use gputop.Client.Perf.Emptied.{
  put_timelines, put_current_timeline, empty_timelines, empty_graphs, i915_perf_empty_samples,
}

module _ {b : Bool} {next : ℕ} {f g : ℕ → ℕ} where
  put_timelines-Stored :
      (ss : List Samples) (st : Store)
      → Stored b next (λ j. held_by_all ss j + f j) (λ h. uses_all ss h + g h) st
      → Ensures (put_timelines ss st) (Stored b next f g)
  unfolding put_timelines
  put_timelines-Stored [] st v = Ensures-some _ (Stored-ext v (λ j. omega arith) (λ h. omega arith))
  put_timelines-Stored (s ∷ ss) st v =
      let all : Stored b next (λ j. held_by s j + (held_by_all ss j + f j))
          (λ h. uses s.context h + (uses_all ss h + g h)) st =
        Stored-ext v (λ j. omega arith) (λ h. omega arith) in
      Ensures-bind (put_accumulated_sample-Stored s st all)
        (λ st1 v1. put_timelines-Stored ss st1 v1)

  put_current_timeline-Stored :
      (o : Option Samples) (st : Store)
      → Stored b next (λ j. held_by_current o j + f j) (λ h. uses_current o h + g h) st
      → Ensures (put_current_timeline o st) (Stored b next f g)
  unfolding put_current_timeline
  put_current_timeline-Stored none st v =
      Ensures-some _ (Stored-ext v (λ j. omega arith) (λ h. omega arith))
  put_current_timeline-Stored (some s) st v = put_accumulated_sample-Stored s st v

counted_self : (c : HwContext) → n_samples_at c c.hw_id ≡ c.n_samples
counted_self c = ground arith

-- Contexts that nobody uses are gone.
no_contexts :
    (b : Bool) (cs : List HwContext)
    → All (IsContext b) cs
    → ((h : ℕ) → n_samples_of cs h ≡ 0)
    → cs ≡ []
no_contexts b [] a z = refl
no_contexts b (c ∷ cs) a z = absurd (omega (arith, a.0.0, z c.hw_id, counted_self c))

counted_chunk : (c : Chunk) → refcount (c ∷ []) c.id ≡ c.refcount
counted_chunk c = ground arith

-- Chunks that nobody holds are gone.
no_chunks : {next : ℕ} (cs : List Chunk) → Holds next (λ _. 0) cs → cs ≡ []
no_chunks [] v = refl
no_chunks (c ∷ cs) v = absurd (omega (arith, v.live.0.0, v.counts c.id, counted_chunk c))

module _ {config : Configuration} {last : Option Report} {b : Bool} where
  empty_timelines-Kept :
      (ctx : PerfContext)
      → Kept config last b (λ _. 0) ctx
      → Ensures (empty_timelines ctx) (λ ctx'.
        Kept config last b (λ _. 0) ctx'
        × (ctx'.hw_contexts ≡ [])
        × (ctx'.current_timeline_samples ≡ none)
        × (ctx'.timelines ≡ []))
  unfolding empty_timelines last_report
  empty_timelines-Kept ctx k =
      let F = λ (j : ℕ).
        held_last ctx.last_chunk j
        + held_by_current ctx.current_graph_samples j
        + held_by_all ctx.graphs j in
      let all : Stored b ctx.next_chunk
          (λ j.
            held_by_all ctx.timelines j + (held_by_current ctx.current_timeline_samples j + F j))
          (λ h. uses_all ctx.timelines h + (uses_current ctx.current_timeline_samples h + 0))
          (ctx.hw_contexts, ctx.i915_perf_chunks) =
        Stored-ext k.stored (λ j. omega arith) (λ h. omega arith) in
      Ensures-bind (put_timelines-Stored ctx.timelines (ctx.hw_contexts, ctx.i915_perf_chunks) all)
        (λ st1 v1.
          Ensures-bind
            (put_current_timeline-Stored {f = F} {g = λ _. 0} ctx.current_timeline_samples st1 v1)
            (λ st2 v2.
              let gone = no_contexts b st2.0 v2.contexts v2.samples in
              Ensures-when_empty st2.0 gone (
                Ensures-some _ (
                  record {
                    same = k.same;
                    ready = record { set = k.ready.set; last = k.ready.last };
                    last_is = k.last_is;
                    last_whole = k.last_whole;
                    current = k.current;
                    graphs = k.graphs;
                    n_graphs = k.n_graphs;
                    few = k.few;
                    timeline = tt;
                    timelines = tt;
                    n_timelines = refl;
                    stored = record {
                      contexts = tt;
                      samples = λ h. omega arith;
                      chunks =
                          Holds-ext v2.chunks
                            (λ j. omega (arith, ap (λ cs. held_by_contexts cs j) gone));
                    };
                  },
                  refl,
                  refl,
                  refl,
                ))))

-- The state after `i915_perf_empty_samples`: as after the start, with the settings kept.
pub record IsEmpty (ctx : PerfContext) : Type 0 where
  pub chunks : ctx.i915_perf_chunks ≡ []
  pub hw_contexts : ctx.hw_contexts ≡ []
  pub graphs : (ctx.graphs ≡ []) × (ctx.n_graphs ≡ 0) × (ctx.current_graph_samples ≡ none)
  pub timelines :
      (ctx.timelines ≡ []) × (ctx.n_timelines ≡ 0) × (ctx.current_timeline_samples ≡ none)
  pub last : (ctx.last_chunk ≡ none) × (ctx.last_header ≡ none)

module _ {config : Configuration} {last : Option Report} {b : Bool} where
  empty_graphs-IsEmpty :
      (ctx : PerfContext)
      → Kept config last b (λ _. 0) ctx
      → ctx.hw_contexts ≡ []
      → ctx.current_timeline_samples ≡ none
      → ctx.timelines ≡ []
      → Ensures (empty_graphs ctx) (λ ctx'. Kept config none false (λ _. 0) ctx' × IsEmpty ctx')
  unfolding empty_graphs last_report
  empty_graphs-IsEmpty ctx k no_hw no_current no_timelines =
      let all : Holds ctx.next_chunk
          (λ j.
            held_by_all ctx.graphs j
            + (held_by_current ctx.current_graph_samples j + (held_last ctx.last_chunk j + 0)))
          ctx.i915_perf_chunks =
        Holds-ext k.stored.chunks (λ j. omega (
          arith,
          ap (λ cs. held_by_contexts cs j) no_hw,
          ap (λ o. held_by_current o j) no_current,
          ap (λ ss. held_by_all ss j) no_timelines,
        )) in
      Ensures-bind (put_all-Holds ctx.graphs all) (λ chunks1 v1.
        Ensures-bind (put_current-Holds ctx.current_graph_samples v1) (λ chunks2 v2.
          Ensures-bind (put_last_chunk-Holds {f = λ _. 0} ctx.last_chunk v2) (λ chunks3 v3.
            Ensures-some _ (
              record {
                same = k.same;
                ready = record { set = k.ready.set; last = tt };
                last_is = refl;
                last_whole = tt;
                current = tt;
                graphs = tt;
                n_graphs = refl;
                few = omega arith;
                timeline = k.timeline;
                timelines = k.timelines;
                n_timelines = k.n_timelines;
                stored = record {
                  contexts = subst (All (IsContext false)) (sym no_hw) tt;
                  samples = k.stored.samples;
                  chunks = Holds-ext v3 (λ j. omega (
                    arith,
                    ap (λ cs. held_by_contexts cs j) no_hw,
                    ap (λ o. held_by_current o j) no_current,
                    ap (λ ss. held_by_all ss j) no_timelines,
                  ));
                };
              },
              record {
                chunks = no_chunks chunks3 v3;
                hw_contexts = no_hw;
                graphs = (refl, refl, refl);
                timelines = (no_timelines, k.n_timelines ∙ ap length no_timelines, no_current);
                last = (refl, refl);
              },
            ))))

-- `i915_perf_empty_samples`, on a state with the invariant, fails none of its assertions: it gives
-- up every sample, with which every hardware context and every chunk of data goes, resets the
-- counters and the last record, and keeps the invariant.
pub i915_perf_empty_samples-IsEmpty :
    (config : Configuration) (ctx : PerfContext)
    → IsKept config ctx
    → Ensures (i915_perf_empty_samples ctx) (λ ctx'. IsKept config ctx' × IsEmpty ctx')
unfolding i915_perf_empty_samples
i915_perf_empty_samples-IsEmpty config ctx k =
    Ensures-bind (empty_timelines-Kept ctx k.1.1) (λ ctx1 k1.
      Ensures-bind (empty_graphs-IsEmpty ctx1 k1.0 k1.1 k1.2 k1.3) (λ ctx2 k2.
        Ensures-when_empty ctx2.i915_perf_chunks k2.1.chunks
          (Ensures-some _ ((none, (false, k2.0)), k2.1))))
