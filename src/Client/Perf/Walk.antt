-- ===== src/Client/Perf/Walk.antt =====
-- A walk over the records of a chunk keeps the invariant.
use gputop.Base.{
  ℕ, ◌+◌, ◌<◌, ◌≡◌, refl, sym, ◌∙◌, arith, Bool, true, false, Option, none, some, List, [], ◌∷◌,
  ◌==◌, if◌then◌else◌, ==_iff, All, Ensures, Ensures-some, Ensures-if, Ensures-bind, Ensures-mono,
  Ensures-of,
}
use mathlib.Core.Path.{subst}
use gputop.Oa.Report.{report_get_ctx_id, Report}
use gputop.Oa.Record.{
  record_sample, record_oa_report_lost, record_oa_buffer_lost, Configuration, PerfRecord,
  record_report,
}
use gputop.Client.Streams.{Context, stop_sampling}
use gputop.Client.Streams.Restart.{stopped-Settings}
use gputop.Client.Streams.Owned.{stopped}
use gputop.Client.Perf.{Chunk, PerfContext}
use gputop.Client.Perf.Stream.{
  put_last_chunk, remember, accumulate_sample, Next, go, return, accumulate_record,
  accumulate_records, last_report,
}
use gputop.Client.Perf.Counting.{
  put_i915_perf_chunk-Holds, held_by_all, held_by_current, Holds, Holds-ext,
  ref_i915_perf_chunk-Holds,
}
use gputop.Client.Perf.Stored.{held_by_contexts}
use gputop.Oa.Accumulator.Formats.{IsFormat}
use gputop.Client.Perf.Getting.{IsSample, i915_perf_timestamp_total}
use gputop.Client.Perf.Kept.{Kept, its-IsSample, held_last}
use gputop.Client.Perf.Started.{start_graphs-Kept}
use gputop.Client.Perf.Period.{KeptAny, accumulate_pair-Kept}

pub put_last_chunk-Holds :
    {next : ℕ} {f : ℕ → ℕ} {chunks : List Chunk} (o : Option ℕ)
    → Holds next (λ j. held_last o j + f j) chunks
    → Ensures (put_last_chunk o chunks) (Holds next f)
unfolding put_last_chunk
put_last_chunk-Holds none v = Ensures-some _ (Holds-ext v (λ j. omega arith))
put_last_chunk-Holds (some k) v = put_i915_perf_chunk-Holds k v

module _ (chunk : ℕ) (header : PerfRecord) {config : Configuration} (whole : IsSample config header)
    {last : Option Report} {f : ℕ → ℕ} (there : 0 < f chunk) where
  remember-Kept :
      (hw_id : ℕ) (b : Bool) (ctx : PerfContext)
      → Kept config last b f ctx
      → Ensures (remember chunk header hw_id ctx) (Kept config (some whole.0) b f)
  unfolding remember last_report
  remember-Kept hw_id b ctx k =
      let its = its-IsSample header k whole in
      let F = λ (j : ℕ).
        held_by_contexts ctx.hw_contexts j
        + held_by_current ctx.current_graph_samples j
        + held_by_all ctx.graphs j
        + held_by_current ctx.current_timeline_samples j
        + held_by_all ctx.timelines j
        + f j in
      let all : Holds ctx.next_chunk (λ j. held_last ctx.last_chunk j + F j) ctx.i915_perf_chunks =
        Holds-ext k.stored.chunks (λ j. omega arith) in
      Ensures-bind (i915_perf_timestamp_total ctx header k.ready.last its) (λ now _.
        Ensures-bind (put_last_chunk-Holds ctx.last_chunk all) (λ chunks1 v1.
          Ensures-bind (ref_i915_perf_chunk-Holds chunk v1 (omega (arith, there))) (λ chunks2 v2.
            Ensures-some _ (record {
              same = k.same;
              ready = record { set = k.ready.set; last = its };
              last_is = subst (λ c. record_report c header ≡ some whole.0) (sym k.same) whole.1;
              last_whole = whole.2;
              current = k.current;
              graphs = k.graphs;
              n_graphs = k.n_graphs;
              few = k.few;
              timeline = k.timeline;
              timelines = k.timelines;
              n_timelines = k.n_timelines;
              stored = record {
                contexts = k.stored.contexts;
                samples = k.stored.samples;
                chunks = Holds-ext v2 (λ j. omega arith);
              };
            }))))

  accumulate_sample-Kept :
      (ctx : PerfContext)
      → KeptAny config last f ctx
      → Ensures (accumulate_sample chunk header last whole.0 ctx) (KeptAny config (some whole.0) f)
  unfolding accumulate_sample
  accumulate_sample-Kept ctx k =
      let hw_id = report_get_ctx_id ctx.client.devinfo whole.0 in
      Ensures-bind (start_graphs-Kept k.0 chunk header ctx k.1 whole there) (λ ctx1 k1.
        Ensures-bind
          (accumulate_pair-Kept chunk header whole there whole.0 whole.2 hw_id last ctx1 k1)
          (λ ctx2 k2. Ensures-mono (remember-Kept hw_id k2.0 ctx2 k2.1) (λ ctx3 k3. (k2.0, k3))))

if_metric_set :
    (b : Bool) (x y : Context)
    → x.metric_set ≡ y.metric_set
    → (if b then x else y).metric_set ≡ y.metric_set
if_metric_set true x y e = e
if_metric_set false x y e = refl

stop_sampling_lem : (ctx : Context) → (stop_sampling ctx).metric_set ≡ ctx.metric_set
unfolding stop_sampling
stop_sampling_lem ctx = if_metric_set ctx.is_sampling (stopped ctx) ctx (stopped-Settings ctx).1

-- The invariant, wherever the loop is and wherever it ended.
abbrev pub KeptNext : Configuration → (ℕ → ℕ) → Next → Type 0
KeptNext config f (go last ctx) = KeptAny config last f ctx
KeptNext config f (return ctx) = (last : Option Report) × KeptAny config last f ctx

-- A record of the kernel: a sample is whole.
abbrev pub IsRecord : Configuration → PerfRecord → Type 0
IsRecord config header = header.kind ≡ record_sample → IsSample config header

-- The streams may change under the samples, as long as there is a metric set.
pub with_client-Kept :
    {config : Configuration} {last : Option Report} {b : Bool} {f : ℕ → ℕ} (ctx : PerfContext)
    (client : Context)
    → Ensures client.metric_set (λ set. IsFormat set.perf_oa_format)
    → Kept config last b f ctx
    → Kept config last b f (record ctx { client = client })
unfolding last_report
with_client-Kept ctx client set k = record {
  same = k.same;
  ready = record { set = set; last = k.ready.last };
  last_is = k.last_is;
  last_whole = k.last_whole;
  current = k.current;
  graphs = k.graphs;
  n_graphs = k.n_graphs;
  few = k.few;
  timeline = k.timeline;
  timelines = k.timelines;
  n_timelines = k.n_timelines;
  stored = k.stored;
}

stopped-Kept :
    {config : Configuration} {last : Option Report} {b : Bool} {f : ℕ → ℕ} (ctx : PerfContext)
    → Kept config last b f ctx
    → Kept config last b f (record ctx { client = stop_sampling ctx.client })
stopped-Kept ctx k =
    let set = k.ready.set in
    with_client-Kept ctx (stop_sampling ctx.client)
      (Ensures-of set.result (stop_sampling_lem ctx.client ∙ set.runs) set.holds) k

module _ (config : Configuration) (chunk : ℕ) {f : ℕ → ℕ} (there : 0 < f chunk) where
  accumulate_record-Kept :
      (header : PerfRecord) (last : Option Report) (ctx : PerfContext)
      → IsRecord config header
      → KeptAny config last f ctx
      → Ensures (accumulate_record chunk header last ctx) (KeptNext config f)
  unfolding accumulate_record
  accumulate_record-Kept header last ctx s k =
      Ensures-if (header.kind == record_oa_buffer_lost)
        (λ _. Ensures-some _ (last, (k.0, stopped-Kept ctx k.1)))
        (λ _.
          Ensures-if (header.kind == record_oa_report_lost) (λ _. Ensures-some _ k)
            (λ _.
              Ensures-if (header.kind == record_sample)
                (λ e.
                  let whole = s ((==_iff header.kind record_sample).0 e) in
                  let its = its-IsSample header k.1 whole in
                  Ensures-bind
                    (Ensures-of {P = λ r. r ≡ whole.0} whole.0
                      (subst (λ c. record_report c header ≡ some whole.0) (sym k.1.same) whole.1)
                      refl)
                    (λ r q.
                      Ensures-bind
                        (subst
                          (λ r.
                            Ensures (accumulate_sample chunk header last r ctx)
                              (KeptAny config (some r) f))
                          (sym q) (accumulate_sample-Kept chunk header whole there ctx k))
                        (λ ctx1 k1. Ensures-some _ k1)))
                (λ _. Ensures-some _ (last, k))))

  pub accumulate_records-Kept :
      (records : List PerfRecord) (last : Option Report) (ctx : PerfContext)
      → All (IsRecord config) records
      → KeptAny config last f ctx
      → Ensures
          (accumulate_records chunk last records ctx)
          (λ ctx'. (last' : Option Report) × KeptAny config last' f ctx')
  unfolding accumulate_records
  accumulate_records-Kept [] last ctx s k = Ensures-some _ (last, k)
  accumulate_records-Kept (header ∷ rest) last ctx s k =
      Ensures-bind (accumulate_record-Kept header last ctx s.0 k) (elim [
        | go last1 ctx1 ↦ λ k1. accumulate_records-Kept rest last1 ctx1 s.1 k1
        | return ctx1 ↦ λ k1. Ensures-some _ k1
      ])
