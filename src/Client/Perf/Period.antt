-- ===== src/Client/Perf/Period.antt =====
-- The end of an aggregation period keeps the invariant.
use gputop.Base.{
  List, ◌++◌, ◌≡◌, sym, maybe, Ensures-result, Bool-cases, inl, inr, ℕ, ◌+◌, ◌<◌, refl, ap, ◌∙◌,
  arith, Bool, true, false, Option, none, some, [], ◌∷◌, ltb, ◌&&◌, length-append, Ensures,
  Ensures-some, Ensures-if, Ensures-bind, Ensures-mono,
}
use mathlib.Core.Path.{subst}
use gputop.Oa.Report.{Report, IsReport}
use gputop.Oa.Record.{Configuration, PerfRecord}
use gputop.Oa.Accumulator.{Accumulator, accumulate_reports}
use gputop.Client.Perf.{Samples, PerfContext}
use gputop.Client.Perf.Recording.{ended, i915_perf_record_for_time}
use gputop.Client.Perf.Stream.{
  accumulate_pair, record_period, accumulate_graph, elapsed, last_report,
}
use gputop.Client.Perf.Counting.{
  here, held_by, held_by_all, held_by_current, Holds, Holds-ext, ref_i915_perf_chunk-Holds,
}
use gputop.Client.Perf.Stored.{held_by_contexts, Plain}
use gputop.Client.Perf.Getting.{IsSample, i915_perf_timestamp_total}
use gputop.Client.Perf.Putting.{Stored-ext}
use gputop.Client.Perf.Recorded.{
  remove_excess-Left, record_contexts-Moved, held_by-ended, held_by_all-append, All-append_one,
}
use gputop.Client.Perf.Accumulated.{accumulate_reports_total}
use gputop.Client.Perf.Running.{accumulate_timeline-Kept}
use gputop.Client.Perf.Kept.{IsPeriod, Kept, has_period, its-IsSample, KeptWith, held_last, outside}
use gputop.Client.Perf.Started.{start_timeline-Kept}

-- Samples that ended have joined the graphs, and no samples of the device run.
pub record Closed (chunk : ℕ) (header : PerfRecord) (s : Samples) (ctx : PerfContext) : Type 0 where
  pub stopped : ctx.current_graph_samples ≡ none
  pub joined :
      (older : List Samples) × (now : ℕ) × (ctx.graphs ≡ older ++ ended chunk header now s ∷ [])

module _ (chunk : ℕ) (header : PerfRecord) {config : Configuration} (whole : IsSample config header)
    {last : Option Report} {f : ℕ → ℕ} (there : 0 < f chunk) where
  i915_perf_record_for_time-Kept :
      (ctx : PerfContext) (s0 : Samples)
      → Kept config last true f ctx
      → ctx.current_graph_samples ≡ some s0
      → Ensures
          (i915_perf_record_for_time chunk header ctx)
          (λ ctx'. KeptWith config last false true f ctx' × Closed chunk header s0 ctx')
  unfolding i915_perf_record_for_time last_report ended
  i915_perf_record_for_time-Kept ctx s0 k e =
      Ensures-bind (has_period config ctx.current_graph_samples k.current) (λ s h.
        Ensures-bind (ref_i915_perf_chunk-Holds chunk k.stored.chunks (omega (arith, there)))
          (λ chunks1 v1.
            Ensures-bind
              (i915_perf_timestamp_total ctx header k.ready.last (its-IsSample header k whole))
              (λ now _.
                let F = λ (j : ℕ).
                  held_by_contexts ctx.hw_contexts j
                  + held_last ctx.last_chunk j
                  + held_by s j
                  + held_by_current ctx.current_timeline_samples j
                  + held_by_all ctx.timelines j
                  + here chunk j
                  + f j in
                let all : Holds ctx.next_chunk (λ j. held_by_all ctx.graphs j + F j) chunks1 =
                  Holds-ext v1 (λ j. omega (arith, ap (λ o. held_by_current o j) h.0)) in
                Ensures-bind
                  (remove_excess-Left ctx.max_graphs ctx.n_graphs ctx.graphs chunks1 k.n_graphs
                    k.graphs all)
                  (λ left r.
                    let s1 = ended chunk header now s in
                    let q = ap (λ o. maybe o s0 (λ x. x)) (sym h.0 ∙ e) in
                    Ensures-some _ (
                      record {
                        same = k.same;
                        ready = record { set = k.ready.set; last = k.ready.last };
                        last_is = k.last_is;
                        last_whole = k.last_whole;
                        current = tt;
                        graphs = All-append_one Plain left.1 s1 r.plain h.1.0;
                        n_graphs = omega (arith, r.n, length-append left.1 (s1 ∷ []));
                        few = omega (arith, r.few);
                        timeline = k.timeline;
                        timelines = k.timelines;
                        n_timelines = k.n_timelines;
                        stored = record {
                          contexts = k.stored.contexts;
                          samples = k.stored.samples;
                          chunks = Holds-ext r.chunks (λ j. omega (
                            arith,
                            held_by_all-append left.1 s1 j,
                            held_by-ended chunk header now s j h.1.1,
                          ));
                        };
                      },
                      record {
                        stopped = refl;
                        joined = (left.1, now, ap (λ u. left.1 ++ ended chunk header now u ∷ []) q);
                      },
                    )))))

  -- The end of an aggregation period keeps the invariant.
  pub record_period-Kept :
      (ctx : PerfContext) (s0 : Samples)
      → Kept config last true f ctx
      → ctx.current_graph_samples ≡ some s0
      → Ensures
          (record_period chunk header ctx)
          (λ ctx'. Kept config last false f ctx' × Closed chunk header s0 ctx')
  unfolding record_period last_report
  record_period-Kept ctx s0 k e =
      Ensures-bind (i915_perf_record_for_time-Kept ctx s0 k e) (λ ctx1 r.
        let k1 = r.0 in
        Ensures-bind
          (record_contexts-Moved ctx1 chunk header (λ j. outside ctx1 j + f j) ctx1.hw_contexts
            ctx1.i915_perf_chunks k1.stored.contexts k1.stored.chunks (omega (arith, there)))
          (λ st moved. Ensures-some _ (
            record {
              same = k1.same;
              ready = record { set = k1.ready.set; last = k1.ready.last };
              last_is = k1.last_is;
              last_whole = k1.last_whole;
              current = k1.current;
              graphs = k1.graphs;
              n_graphs = k1.n_graphs;
              few = k1.few;
              timeline = k1.timeline;
              timelines = k1.timelines;
              n_timelines = k1.n_timelines;
              stored = record {
                contexts = moved.valid;
                samples = λ h. moved.same_samples h ∙ k1.stored.samples h;
                chunks = moved.chunks;
              };
            },
            record { stopped = r.1.stopped; joined = r.1.joined },
          )))

-- Whether or not an aggregation period runs.
abbrev pub KeptAny : Configuration → Option Report → (ℕ → ℕ) → PerfContext → Type 0
KeptAny config last f ctx = (b : Bool) × Kept config last b f ctx

-- What a report does to an aggregation period: whether the period is over is known.
abbrev pub Outcome :
    Configuration
    → Report
    → (ℕ → ℕ)
    → ℕ
    → PerfRecord
    → Samples
    → Bool
    → PerfContext
    → PerfContext
    → Type 0
Outcome config last f chunk header s over ctx ctx' =
    (over ≡ true → Kept config (some last) false f ctx' × Closed chunk header s ctx')
    × (over ≡ false
        → Kept config (some last) true f ctx'
          × (ctx'.current_graph_samples ≡ some s)
          × (ctx'.graphs ≡ ctx.graphs))

module _ (chunk : ℕ) (header : PerfRecord) {config : Configuration} (whole : IsSample config header)
    {f : ℕ → ℕ} (there : 0 < f chunk) (report : Report) (v : IsReport report) where
  -- A report that ends no aggregation period leaves the running samples with what they gained.
  -- One that does ends them: they join the graphs as the last of them, and neither the device nor
  -- a context has running samples any more, so that the next report starts a new period.
  pub accumulate_graph-Outcome :
      (last : Report) (ctx : PerfContext) (s : Samples) (result : Bool × Accumulator)
      → Kept config (some last) true f ctx
      → ctx.current_graph_samples ≡ some s
      → accumulate_reports s.accumulator last report ≡ some result
      → Ensures (accumulate_graph chunk header last report ctx) (
          Outcome config last f chunk header
            (record s { accumulator = result.1 })
            (result.0 && ltb ctx.client.oa_aggregation_period_ns (elapsed result.1))
            ctx)
  unfolding accumulate_graph last_report
  accumulate_graph-Outcome last ctx s result k e r =
      let h = subst (IsPeriod true config) e k.current in
      let w =
        Ensures-result (accumulate_reports_total s.accumulator last report h.0.2 k.last_whole v)
          r in
      let s1 = record s { accumulator = result.1 } in
      let ctx1 = record ctx { current_graph_samples = some s1 } in
      let k1 : Kept config (some last) true f ctx1 = record {
        same = k.same;
        ready = record { set = k.ready.set; last = k.ready.last };
        last_is = k.last_is;
        last_whole = k.last_whole;
        current = ((h.0.0, h.0.1, w), h.1);
        graphs = k.graphs;
        n_graphs = k.n_graphs;
        few = k.few;
        timeline = k.timeline;
        timelines = k.timelines;
        n_timelines = k.n_timelines;
        stored =
            Stored-ext k.stored (λ j. omega (arith, ap (λ o. held_by_current o j) e)) (λ h. refl);
      } in
      let done = result.0 && ltb ctx.client.oa_aggregation_period_ns (elapsed result.1) in
      rw (e, r)
        (Ensures-if done
          (λ t.
            Ensures-mono (record_period-Kept chunk header whole there ctx1 s1 k1 refl)
              (λ ctx2 k2. (λ _. k2, λ n. absurd cc)))
          (λ t. Ensures-some _ (λ y. absurd cc, λ _. (k1, refl, refl))))

  accumulate_graph-Kept :
      (last : Report) (ctx : PerfContext)
      → Kept config (some last) true f ctx
      → Ensures (accumulate_graph chunk header last report ctx) (KeptAny config (some last) f)
  accumulate_graph-Kept last ctx k =
      let s = has_period config ctx.current_graph_samples k.current in
      let total =
        accumulate_reports_total s.result.accumulator last report s.holds.1.2 k.last_whole v in
      Ensures-mono (accumulate_graph-Outcome last ctx s.result total.result k s.runs total.runs)
        (λ ctx' o.
          elim (Bool-cases
            (total.result.0 && ltb ctx.client.oa_aggregation_period_ns (elapsed total.result.1))) [
              | inl t ↦ (false, (o.0 t).0)
              | inr n ↦ (true, (o.1 n).0)
            ])

  pub accumulate_pair-Kept :
      (hw_id : ℕ) (last : Option Report) (ctx : PerfContext)
      → Kept config last true f ctx
      → Ensures (accumulate_pair chunk header hw_id last report ctx) (KeptAny config last f)
  unfolding accumulate_pair
  accumulate_pair-Kept hw_id none ctx k = Ensures-some _ (true, k)
  accumulate_pair-Kept hw_id (some last) ctx k =
      Ensures-bind (start_timeline-Kept ctx k) (λ ctx1 k1.
        Ensures-bind (accumulate_timeline-Kept chunk header whole there report v hw_id ctx1 k1)
          (λ ctx2 k2. accumulate_graph-Kept last ctx2 k2))
