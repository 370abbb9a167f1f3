-- ===== src/Client/Perf/Accumulated.antt =====
-- The accumulation on the samples of a hardware context keeps the invariant.
use gputop.Base.{
  ℕ, ◌<◌, ◌≡◌, inl, inr, refl, sym, ap, arith, true, false, some, ◌==◌, Bool-cases, Ensures,
  Ensures-some, Ensures-bind, Ensures-of,
}
use mathlib.Core.Path.{subst}
use gputop.Oa.Report.{Report, IsReport, word}
use gputop.Oa.Record.{Configuration}
use gputop.Oa.Accumulator.{Accumulator, accumulate_reports}
use gputop.Oa.Accumulator.Invariant.{
  IsValid, accumulate_reports-Accumulated, accumulate_reports_spurious,
}
use gputop.Client.Perf.{HwContext, PerfContext}
use gputop.Client.Perf.Stream.{accumulate_context, last_report}
use gputop.Client.Perf.Counting.{held_by_current, Holds-ext}
use gputop.Client.Perf.Stored.{IsRunning, find_context-some, find_context-Found}
use gputop.Client.Perf.Recorded.{has_current}
use gputop.Client.Perf.Kept.{Kept, users}

-- `gputop_cc_oa_accumulate_reports` on whole reports does not fail, with timestamps or without.
pub accumulate_reports_total :
    (a : Accumulator) (last report : Report)
    → IsValid a
    → IsReport last
    → IsReport report
    → Ensures (accumulate_reports a last report) (λ result. IsValid result.1)
accumulate_reports_total a last report v v0 v1 = elim (Bool-cases (word last 1 == 0)) [
  | inl z ↦ Ensures-of (false, a) (accumulate_reports_spurious a last report (inl (ground arith))) v
  | inr n ↦ elim (Bool-cases (word report 1 == 0)) [
    | inl z ↦
        Ensures-of (false, a) (accumulate_reports_spurious a last report (inr (ground arith))) v
    | inr m ↦
        let r =
          accumulate_reports-Accumulated a last report v v0 v1
            (λ e. ground arith, λ e. ground arith) in
        Ensures-of (true, r.0) r.1 r.2.valid
  ]
]

module _ (last report : Report) (whole : IsReport report) {config : Configuration} {f : ℕ → ℕ} where
  -- The accumulation for a context that is used keeps the invariant.
  pub accumulate_context-Kept :
      (context : ℕ) (ctx : PerfContext)
      → Kept config (some last) true f ctx
      → 0 < users ctx context
      → Ensures (accumulate_context context last report ctx) (Kept config (some last) true f)
  unfolding accumulate_context last_report
  accumulate_context-Kept context ctx k used =
      let c = find_context-some context ctx.hw_contexts (omega (arith, k.stored.samples context)) in
      let found = find_context-Found true context ctx.hw_contexts c.0 c.1 in
      let valid = found.valid k.stored.contexts in
      Ensures-bind (Ensures-of {P = λ d. d ≡ c.0} c.0 c.1 refl) (λ d e.
        Ensures-bind
          (subst
            (λ d.
              Ensures d.current_graph_samples
                (λ s. (c.0.current_graph_samples ≡ some s) × IsRunning s))
            (sym e) (has_current c.0.current_graph_samples valid.3))
          (λ s h.
            Ensures-bind
              (accumulate_reports_total s.accumulator last report h.1.2 k.last_whole whole)
              (λ result v.
                let g = λ (d : HwContext). record d {
                  current_graph_samples = some (record s { accumulator = result.1 });
                } in
                Ensures-some _ (record {
                  same = k.same;
                  ready = record { set = k.ready.set; last = k.ready.last };
                  last_is = k.last_is;
                  last_whole = k.last_whole;
                  current = k.current;
                  graphs = k.graphs;
                  n_graphs = k.n_graphs;
                  few = k.few;
                  timeline = k.timeline;
                  timelines = k.timelines;
                  n_timelines = k.n_timelines;
                  stored = record {
                    contexts =
                        found.updated g k.stored.contexts
                          (valid.0, valid.1, valid.2, (h.1.0, h.1.1, v));
                    samples = λ j. omega (arith, found.updated_samples g j, k.stored.samples j);
                    chunks = Holds-ext k.stored.chunks (λ j.
                        omega (arith, found.updated_held g j, ap (λ o. held_by_current o j) h.0));
                  };
                }))))
