-- ===== src/Client/Perf/Started.antt =====
-- The start of samples keeps the invariant.
use gputop.Base.{
  ℕ, ◌+◌, ◌<◌, ◌≡◌, refl, sym, ap, ◌∙◌, arith, Bool, true, false, Option, none, some, List, [], ◌∷◌,
  ◌==◌, All, ◌>>=◌, Ensures, Ensures-some, Ensures-if, Ensures-bind, Ensures-mono, Ensures-maybe,
}
use mathlib.Core.Path.{subst}
use gputop.Oa.Report.{Report, invalid_ctx_id}
use gputop.Oa.Record.{Configuration, PerfRecord, record_report}
use gputop.Client.Perf.{Chunk, Samples, HwContext, PerfContext}
use gputop.Client.Perf.Stream.{
  start_contexts, start_graphs, get_timeline, start_timeline, last_report,
}
use gputop.Client.Perf.Counting.{here, held_by, held_by_all, held_by_current, Holds, Holds-ext}
use gputop.Client.Perf.Stored.{uses, held_by_contexts, HasCurrent, IsContext}
use gputop.Client.Perf.Getting.{
  IsSample, IsLast, Ready, get_sample_of-Holds, get_accumulated_sample-Stored,
}
use gputop.Client.Perf.Putting.{Stored-ext}
use gputop.Client.Perf.Recorded.{Moved}
use gputop.Client.Perf.Kept.{
  Kept, held_last, uses_current, outside, its-IsSample, no_period, has_period,
}

no_current : (o : Option Samples) → HasCurrent false o → o ≡ none
no_current none h = refl
no_current (some s) h = absurd h

module _ (ctx : PerfContext) (ready : Ready ctx) (chunk : ℕ) (header : PerfRecord) where
  start_contexts-Moved :
      {next : ℕ} (f : ℕ → ℕ) (cs : List HwContext) (chunks : List Chunk)
      → IsSample ctx.i915_perf_config header
      → All (IsContext false) cs
      → Holds next (λ j. held_by_contexts cs j + f j) chunks
      → 0 < f chunk
      → Ensures (start_contexts ctx chunk header cs chunks) (Moved true next f cs)
  unfolding start_contexts
  start_contexts-Moved f [] chunks s valid v l =
      Ensures-some _ (record { valid = tt; same_samples = λ h. refl; chunks = v })
  start_contexts-Moved f (c ∷ cs) chunks s valid v l =
      let stopped = no_current c.current_graph_samples valid.0.3 in
      Ensures-maybe c.current_graph_samples
        (λ e.
          Ensures-bind
            (get_sample_of-Holds ctx ready none chunk header chunks s v (omega (arith, l)))
            (λ got new.
              let others : Holds _
                  (λ j. held_by_contexts cs j + (held_by_all c.graphs j + here chunk j + f j))
                  got.1 =
                Holds-ext new.1 (λ j. rw e (omega arith)) in
              Ensures-bind
                (start_contexts-Moved (λ j. held_by_all c.graphs j + here chunk j + f j) cs got.1 s
                  valid.1 others (omega (arith, l)))
                (λ st rs. Ensures-some _ (record {
                  valid = (
                    (
                      valid.0.0,
                      valid.0.1,
                      valid.0.2,
                      (new.0.same_context, new.0.unended, new.0.valid),
                    ),
                    rs.valid,
                  );
                  same_samples = λ h. omega (arith, rs.same_samples h);
                  chunks = Holds-ext rs.chunks (λ j. omega (arith, new.0.holds j));
                }))))
        (λ d e. absurd cc)

module _ {config : Configuration} {last : Option Report} {f : ℕ → ℕ} where
  -- The start of an aggregation period keeps the invariant, and does not fail its assertions.
  pub start_graphs-Kept :
      (b : Bool) (chunk : ℕ) (header : PerfRecord) (ctx : PerfContext)
      → Kept config last b f ctx
      → IsSample config header
      → 0 < f chunk
      → Ensures (start_graphs chunk header ctx) (Kept config last true f)
  unfolding start_graphs last_report
  start_graphs-Kept true chunk header ctx k s l =
      let period = has_period config ctx.current_graph_samples k.current in
      let there = period.runs in
      Ensures-maybe ctx.current_graph_samples (λ e. absurd cc) (λ _ _. Ensures-some _ k)
  start_graphs-Kept false chunk header ctx k s l =
      let e = no_period config ctx.current_graph_samples k.current in
      let its = its-IsSample header k s in
      Ensures-maybe ctx.current_graph_samples
        (λ _.
          Ensures-bind
            (get_sample_of-Holds ctx k.ready none chunk header ctx.i915_perf_chunks its
              k.stored.chunks (omega (arith, l)))
            (λ got new.
              let others : Holds ctx.next_chunk
                  (λ j. held_by_contexts ctx.hw_contexts j + (here chunk j + (outside ctx j + f j)))
                  got.1 =
                Holds-ext new.1 (λ j. omega arith) in
              Ensures-bind
                (start_contexts-Moved ctx k.ready chunk header
                  (λ j. here chunk j + (outside ctx j + f j)) ctx.hw_contexts got.1 its
                  k.stored.contexts others (omega (arith, l)))
                (λ st moved. Ensures-some _ (record {
                  same = k.same;
                  ready = record { set = k.ready.set; last = k.ready.last };
                  last_is = k.last_is;
                  last_whole = k.last_whole;
                  current = (
                    (new.0.same_context, new.0.unended, new.0.valid),
                    subst (IsSample config) (sym new.0.starts) s,
                  );
                  graphs = k.graphs;
                  n_graphs = k.n_graphs;
                  few = k.few;
                  timeline = k.timeline;
                  timelines = k.timelines;
                  n_timelines = k.n_timelines;
                  stored = record {
                    contexts = moved.valid;
                    samples = λ h. moved.same_samples h ∙ k.stored.samples h;
                    chunks =
                        Holds-ext moved.chunks
                          (λ j. omega (arith, new.0.holds j, ap (λ o. held_by_current o j) e));
                  };
                }))))
        (λ d e'. absurd cc)

last_there :
    (config : Configuration) (k : Option ℕ) (header : Option PerfRecord) (r : Report)
    → IsLast config k header
    → (header >>= λ h. record_report config h) ≡ some r
    → Ensures k (λ k'. (j : ℕ) → held_last k j ≡ here k' j) × Ensures header (IsSample config)
last_there config none none r v e = absurd cc
last_there config none (some h) r v e = absurd v
last_there config (some k) none r v e = absurd v
last_there config (some k) (some h) r v e = (Ensures-some _ (λ j. refl), Ensures-some _ v)

here_held : (k : ℕ) → here k k ≡ 1
here_held k = ground arith

starts_held : (s : Samples) → 0 < held_by s s.start_report.chunk
starts_held s = omega (arith, here_held s.start_report.chunk)

module _ {config : Configuration} {r : Report} {f : ℕ → ℕ} where
  get_timeline-Kept :
      (ctx : PerfContext)
      → Kept config (some r) true f ctx
      → ctx.current_timeline_samples ≡ none
      → Ensures (get_timeline ctx) (Kept config (some r) true f)
  unfolding get_timeline last_report
  get_timeline-Kept ctx k e =
      let there =
        last_there ctx.i915_perf_config ctx.last_chunk ctx.last_header r k.ready.last k.last_is in
      let period = has_period config ctx.current_graph_samples k.current in
      Ensures-bind there.0 (λ chunk held. Ensures-bind there.1 (λ header s.
        Ensures-bind
          (get_accumulated_sample-Stored ctx k.ready chunk header ctx.last_hw_id
            (ctx.hw_contexts, ctx.i915_perf_chunks) s (omega (arith, held chunk, here_held chunk))
            (Ensures-mono period (λ s h. (
              its-IsSample s.start_report.header k h.2,
              omega (arith, ap (λ o. held_by_current o s.start_report.chunk) h.0, starts_held s),
            )))
            k.stored)
          (λ got new. Ensures-some _ (record {
            same = k.same;
            ready = record { set = k.ready.set; last = k.ready.last };
            last_is = k.last_is;
            last_whole = k.last_whole;
            current = k.current;
            graphs = k.graphs;
            n_graphs = k.n_graphs;
            few = k.few;
            timeline = ((ctx.last_hw_id, new.0.same_context), new.0.unended, new.0.valid);
            timelines = k.timelines;
            n_timelines = k.n_timelines;
            stored =
                Stored-ext new.1
                  (λ j. omega (arith, new.0.holds j, ap (λ o. held_by_current o j) e))
                  (λ h.
                    omega
                      (arith, ap (λ o. uses o h) new.0.same_context, ap (λ o. uses_current o h) e));
          }))))

  -- The start of samples on the time line keeps the invariant.
  pub start_timeline-Kept :
      (ctx : PerfContext)
      → Kept config (some r) true f ctx
      → Ensures (start_timeline ctx) (Kept config (some r) true f)
  unfolding start_timeline
  start_timeline-Kept ctx k =
      Ensures-maybe ctx.current_timeline_samples
        (λ e.
          Ensures-if (ctx.last_hw_id == invalid_ctx_id) (λ _. Ensures-some _ k)
            (λ _. get_timeline-Kept ctx k e))
        (λ _ _. Ensures-some _ k)
