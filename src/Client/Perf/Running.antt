-- ===== src/Client/Perf/Running.antt =====
-- The accumulation on the time line, and the end of its samples, keep the invariant.
use gputop.Base.{
  ℕ, ◌+◌, ◌<◌, ◌≡◌, refl, sym, ap, arith, true, Option, some, [], ◌∷◌, length-append, Ensures,
  Ensures-some, Ensures-if, Ensures-bind, Ensures-maybe, Ensures-of,
}
use mathlib.Core.Path.{subst}
use gputop.Oa.Report.{Report, IsReport}
use gputop.Oa.Record.{Configuration, PerfRecord}
use gputop.Client.Perf.{Samples, PerfContext}
use gputop.Client.Perf.Recording.{ended, i915_perf_record_for_hw_id}
use gputop.Client.Perf.Stream.{ends_timeline, accumulate_samples, accumulate_timeline, last_report}
use gputop.Client.Perf.Counting.{
  here, held_by, held_by_all, held_by_current, Holds-ext, ref_i915_perf_chunk-Holds,
}
use gputop.Client.Perf.Stored.{Stored, uses, uses_all}
use gputop.Client.Perf.Getting.{IsSample, i915_perf_timestamp_total}
use gputop.Client.Perf.Putting.{Stored-ext, hw_context_add_time-Stored}
use gputop.Client.Perf.Recorded.{
  HasContext, remove_expired-Unexpired, held_by-ended, held_by_all-append, uses_all-append,
  All-append_one,
}
use gputop.Client.Perf.Kept.{Kept, IsTimeline, its-IsSample, held_last, users, uses_current}
use gputop.Client.Perf.Accumulated.{accumulate_reports_total, accumulate_context-Kept}

its-IsTimeline :
    (o : Option Samples) (s : Samples) → o ≡ some s → IsTimeline o → IsTimeline (some s)
its-IsTimeline o s e h = subst IsTimeline e h

-- Samples that end keep their context in use.
abbrev UsedBy : Samples → PerfContext → Type 0
UsedBy s ctx = (context : ℕ) → s.context ≡ some context → 0 < users ctx context

here_used : (k : ℕ) → here k k ≡ 1
here_used k = ground arith

module _ (chunk : ℕ) (header : PerfRecord) {config : Configuration} (whole : IsSample config header)
    {last : Option Report} {f : ℕ → ℕ} (there : 0 < f chunk) where
  i915_perf_record_for_hw_id-Kept :
      (s : Samples) (ctx : PerfContext)
      → Kept config last true f ctx
      → ctx.current_timeline_samples ≡ some s
      → Ensures
          (i915_perf_record_for_hw_id chunk header ctx)
          (λ ctx'. Kept config last true f ctx' × UsedBy s ctx')
  unfolding i915_perf_record_for_hw_id last_report ended
  i915_perf_record_for_hw_id-Kept s ctx k e =
      let t = its-IsTimeline ctx.current_timeline_samples s e k.timeline in
      let F = λ (j : ℕ).
        held_last ctx.last_chunk j
        + held_by_current ctx.current_graph_samples j
        + held_by_all ctx.graphs j
        + held_by s j
        + here chunk j
        + f j in
      Ensures-bind (Ensures-of {P = λ s'. s' ≡ s} s e refl) (λ s' e'.
        Ensures-bind (ref_i915_perf_chunk-Holds chunk k.stored.chunks (omega (arith, there)))
          (λ chunks1 v1.
            Ensures-bind
              (i915_perf_timestamp_total ctx header k.ready.last (its-IsSample header k whole))
              (λ now _.
                let st : Stored true ctx.next_chunk (λ j. held_by_all ctx.timelines j + F j)
                    (λ h. uses_all ctx.timelines h + uses s.context h) (ctx.hw_contexts, chunks1) =
                  record {
                    contexts = k.stored.contexts;
                    samples = λ h. omega (arith, k.stored.samples h, ap (λ o. uses_current o h) e);
                    chunks = Holds-ext v1 (λ j. omega (arith, ap (λ o. held_by_current o j) e));
                  } in
                Ensures-bind
                  (remove_expired-Unexpired ctx.visible_timeline_ns now ctx.n_timelines
                    ctx.timelines (ctx.hw_contexts, chunks1) k.n_timelines k.timelines st)
                  (λ left r.
                    let t' = subst (λ u. IsTimeline (some u)) (sym e') t in
                    let s1 = ended chunk header now s' in
                    Ensures-bind (hw_context_add_time-Stored s1 true left.2 t'.0.0 t'.0.1 r.stored)
                      (λ cs v. Ensures-some _ (
                        record {
                          same = k.same;
                          ready = record { set = k.ready.set; last = k.ready.last };
                          last_is = k.last_is;
                          last_whole = k.last_whole;
                          current = k.current;
                          graphs = k.graphs;
                          n_graphs = k.n_graphs;
                          few = k.few;
                          timeline = tt;
                          timelines = All-append_one HasContext left.1 s1 r.contexts t'.0;
                          n_timelines = omega (arith, r.n, length-append left.1 (s1 ∷ []));
                          stored =
                              Stored-ext v
                                (λ j. omega (
                                  arith,
                                  held_by_all-append left.1 s1 j,
                                  held_by-ended chunk header now s' j t'.1,
                                  ap (λ (u : Samples). held_by u j) e',
                                ))
                                (λ h. omega (
                                  arith,
                                  uses_all-append left.1 s1 h,
                                  ap (λ (u : Samples). uses u.context h) e',
                                ));
                        },
                        λ c q. omega (
                          arith,
                          uses_all-append left.1 s1 c,
                          ap (λ (u : Samples). uses u.context c) e',
                          ap (λ o. uses o c) q,
                          here_used c,
                        ),
                      ))))))

  -- The accumulation on the time line keeps the invariant.
  accumulate_samples-Kept :
      (hw_id : ℕ) (last' report : Report) (s : Samples) (ctx : PerfContext)
      → Kept config last true f ctx
      → IsReport last'
      → IsReport report
      → ctx.current_timeline_samples ≡ some s
      → Ensures
          (accumulate_samples chunk header hw_id last' report s ctx)
          (λ ctx'. Kept config last true f ctx' × UsedBy s ctx')
  unfolding accumulate_samples last_report
  accumulate_samples-Kept hw_id last' report s ctx k v0 v1 e =
      let t = its-IsTimeline ctx.current_timeline_samples s e k.timeline in
      Ensures-bind (accumulate_reports_total s.accumulator last' report t.2 v0 v1) (λ result v.
        let s1 = record s { accumulator = result.1 } in
        let ctx1 = record ctx { current_timeline_samples = some s1 } in
        let k1 : Kept config last true f ctx1 = record {
          same = k.same;
          ready = record { set = k.ready.set; last = k.ready.last };
          last_is = k.last_is;
          last_whole = k.last_whole;
          current = k.current;
          graphs = k.graphs;
          n_graphs = k.n_graphs;
          few = k.few;
          timeline = (t.0, t.1, v);
          timelines = k.timelines;
          n_timelines = k.n_timelines;
          stored =
              Stored-ext k.stored (λ j. omega (arith, ap (λ o. held_by_current o j) e))
                (λ h. omega (arith, ap (λ o. uses_current o h) e));
        } in
        Ensures-if (ends_timeline ctx hw_id result)
          (λ _. i915_perf_record_for_hw_id-Kept s1 ctx1 k1 refl)
          (λ _. Ensures-some _ (k1, λ c q. omega (arith, ap (λ o. uses o c) q, here_used c))))

module _ (chunk : ℕ) (header : PerfRecord) {config : Configuration} (whole : IsSample config header)
    {last : Report} {f : ℕ → ℕ} (there : 0 < f chunk) (report : Report) (v : IsReport report) where
  -- The accumulation for the context that ran keeps the invariant.
  pub accumulate_timeline-Kept :
      (hw_id : ℕ) (ctx : PerfContext)
      → Kept config (some last) true f ctx
      → Ensures
          (accumulate_timeline chunk header hw_id last report ctx)
          (Kept config (some last) true f)
  unfolding accumulate_timeline
  accumulate_timeline-Kept hw_id ctx k =
      Ensures-maybe ctx.current_timeline_samples (λ _. Ensures-some _ k)
        (λ s e.
          let t = its-IsTimeline ctx.current_timeline_samples s e k.timeline in
          Ensures-bind (Ensures-of {P = λ c. s.context ≡ some c} t.0.0 t.0.1 t.0.1) (λ context q.
            Ensures-bind
              (accumulate_samples-Kept chunk header whole there hw_id last report s ctx k
                k.last_whole v e)
              (λ ctx1 k1.
                accumulate_context-Kept last report v context ctx1 k1.0 (k1.1 context q))))
