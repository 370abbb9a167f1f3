-- ===== src/Client/Streams/Restart.antt =====
-- Starting to sample opens the streams that it should.
use gputop.Base.{
  ℕ, zero, suc, ◌+◌, ◌-◌, ◌≤◌, ◌<◌, ◌≡◌, refl, ap, sym, ◌∙◌, true, false, Option, none, some, List,
  [], ◌∷◌, arith, ◌==◌, Bool-cases, inl, inr, if◌then◌else◌, ◌>>=◌,
}
use mathlib.Core.Path.{subst}
use gputop.Oa.Device.{MetricSet}
use gputop.Oa.Timebase.{time_to_oa_exponent}
use gputop.Client.Streams.{
  Context, Tracepoint, Request, oa_stream_info, tracepoint_config, open_stream, close_stream,
  close_i915_perf_stream, close_all, close_tracepoints, open_cpus, open_tracepoints,
  with_tracepoints, lowered_period, open_oa_stream, open_i915_perf_stream, stop_sampling,
  start_sampling,
}
use gputop.Client.Streams.Owned.{
  is, count, tracepoints_count, Owned, count-close_all, stopped, stop_sampling-stopped,
  stop_sampling-Owned,
}

-- Only the list of streams and the requests differ.
abbrev Kept : Context → Context → Type 0
Kept a b = (s : List ℕ) × (r : List Request) × (b ≡ record a { streams = s; sent = r })

abbrev with_streams : List ℕ → List Request → Context → Context
with_streams streams sent ctx = record ctx { streams = streams; sent = sent }

Kept-Kept : (a b c : Context) → Kept a b → Kept b c → Kept a c
Kept-Kept a b c ab bc = (bc.0, bc.1, bc.2 ∙ ap (with_streams bc.0 bc.1) ab.2)

close_stream-Kept : (id : ℕ) (ctx : Context) → Kept ctx (close_stream id ctx)
unfolding close_stream
close_stream-Kept id ctx = elim (Bool-cases (id == 0)) [
  | inl e ↦ rw e (ctx.streams, ctx.sent, refl)
  | inr n ↦ rw n (_, _, refl)
]

close_all-Kept : (ids : List ℕ) (ctx : Context) → Kept ctx (close_all ids ctx)
unfolding close_all
close_all-Kept [] ctx = (ctx.streams, ctx.sent, refl)
close_all-Kept (id ∷ ids) ctx =
    Kept-Kept ctx (close_stream id ctx) _ (close_stream-Kept id ctx)
      (close_all-Kept ids (close_stream id ctx))

close_tracepoints-Kept :
    (tps : List Tracepoint) (ctx : Context) → Kept ctx (close_tracepoints tps ctx).1
unfolding close_tracepoints
close_tracepoints-Kept [] ctx = (ctx.streams, ctx.sent, refl)
close_tracepoints-Kept (tp ∷ tps) ctx =
    Kept-Kept ctx (close_all tp.streams ctx) _ (close_all-Kept tp.streams ctx)
      (close_tracepoints-Kept tps (close_all tp.streams ctx))

count-open_cpus :
    (id n cpu event_id : ℕ) (ids : List ℕ) (ctx : Context)
    → (count id (open_cpus n cpu event_id ids ctx).1.streams + count id ids
        ≡ count id ctx.streams + count id (open_cpus n cpu event_id ids ctx).0)
      × ((open_cpus n cpu event_id ids ctx).1.oa_stream ≡ ctx.oa_stream)
      × ((open_cpus n cpu event_id ids ctx).1.cpu_stats_stream ≡ ctx.cpu_stats_stream)
      × (ctx.stream_id ≤ (open_cpus n cpu event_id ids ctx).1.stream_id)
unfolding open_cpus open_stream count
count-open_cpus id zero cpu event_id ids ctx = (refl, refl, refl, omega arith)
count-open_cpus id (suc n) cpu event_id ids ctx =
    let rest =
      count-open_cpus id n (cpu + 1) event_id (ctx.stream_id ∷ ids)
        (open_stream (tracepoint_config event_id cpu) ctx) in
    (omega (arith, rest.0), rest.1, rest.2, omega (arith, rest.3))

count-open_tracepoints :
    (id : ℕ) (tps : List Tracepoint) (ctx : Context)
    → 0 < id
    → tracepoints_count id tps ≤ count id ctx.streams
    → (count id (open_tracepoints tps ctx).1.streams
        ≡ count id ctx.streams
          - tracepoints_count id tps
          + tracepoints_count id (open_tracepoints tps ctx).0)
      × ((open_tracepoints tps ctx).1.oa_stream ≡ ctx.oa_stream)
      × ((open_tracepoints tps ctx).1.cpu_stats_stream ≡ ctx.cpu_stats_stream)
      × (ctx.stream_id ≤ (open_tracepoints tps ctx).1.stream_id)
unfolding open_tracepoints tracepoints_count count
count-open_tracepoints id [] ctx h owned = (omega arith, refl, refl, omega arith)
count-open_tracepoints id (tp ∷ tps) ctx h owned =
    let closed = count-close_all id tp.streams ctx h in
    let ctx1 = close_all tp.streams ctx in
    let opened = count-open_cpus id ctx.n_cpus 0 tp.event_id [] ctx1 in
    let rest =
      count-open_tracepoints id tps (open_cpus ctx.n_cpus 0 tp.event_id [] ctx1).1 h
        (omega (arith, opened.0, closed.0)) in
    (
      omega (arith, rest.0, opened.0, closed.0),
      rest.1 ∙ opened.1 ∙ closed.1.0,
      rest.2 ∙ opened.2 ∙ closed.1.1,
      omega (arith, rest.3, opened.3, closed.1.2),
    )

-- A context after `open_i915_perf_stream`, and after the tracepoints are opened.
abbrev opened : Context → MetricSet → ℕ → ℕ → Context
opened ctx metric_set period exponent =
    record (open_stream (oa_stream_info metric_set.hw_config_guid exponent)
      (record ctx { oa_sampling_period_ns = period })) { oa_stream = ctx.stream_id }

abbrev started : Context → Context
started ctx = record (with_tracepoints (open_tracepoints ctx.perf_tracepoints ctx)) {
  is_sampling = true;
}

open_i915-opened :
    (ctx : Context) (metric_set : MetricSet) (period exponent : ℕ)
    → ctx.oa_stream ≡ 0
    → ctx.metric_set ≡ some metric_set
    → lowered_period ctx ≡ some period
    → time_to_oa_exponent ctx.devinfo period ≡ some exponent
    → open_i915_perf_stream ctx ≡ some (opened ctx metric_set period exponent)
unfolding open_i915_perf_stream open_oa_stream
open_i915-opened ctx metric_set period exponent closed set lowered chosen =
    let free : (ctx.oa_stream == 0) ≡ true = ground arith in
    ap
      (λ (m : Option MetricSet). elim m [
        | none ↦ some ctx
        | some metric_set ↦ if ctx.oa_stream == 0 then open_oa_stream metric_set ctx else none
      ])
      set
    ∙ rw (free, lowered, chosen) refl

started-Owned :
    (ctx : Context) (metric_set : MetricSet) (period exponent : ℕ)
    → Owned ctx
    → ctx.oa_stream ≡ 0
    → Owned (started (opened ctx metric_set period exponent))
      × ((started (opened ctx metric_set period exponent)).oa_stream ≡ ctx.stream_id)
unfolding open_stream count
started-Owned ctx metric_set period exponent o closed = (
  record {
    next = let at = facts 1 (omega arith) in omega (arith, at.3, o.next);
    owners = λ id h.
        let at = facts id h in
        let none_oa : is id 0 ≡ 0 = ground arith in
        omega (
          arith,
          at.0,
          o.owners id h,
          ap (is id) closed,
          none_oa,
          ap (is id) at.1,
          ap (is id) at.2,
        );
  },
  (facts 1 (omega arith)).1,
)
  where
    ready : Context
    ready = opened ctx metric_set period exponent

    facts :
        (id : ℕ)
        → 0 < id
        → (count id (open_tracepoints ctx.perf_tracepoints ready).1.streams
            ≡ count id ready.streams
              - tracepoints_count id ctx.perf_tracepoints
              + tracepoints_count id (open_tracepoints ctx.perf_tracepoints ready).0)
          × ((open_tracepoints ctx.perf_tracepoints ready).1.oa_stream ≡ ctx.stream_id)
          × ((open_tracepoints ctx.perf_tracepoints ready).1.cpu_stats_stream
              ≡ ctx.cpu_stats_stream)
          × (ctx.stream_id + 1 ≤ (open_tracepoints ctx.perf_tracepoints ready).1.stream_id)
    facts id h =
        count-open_tracepoints id ctx.perf_tracepoints ready h (omega (arith, o.owners id h))

-- The fields that stopping does not touch.
abbrev pub Settings : Context → Context → Type 0
Settings a b =
    (b.oa_stream ≡ 0)
    × (b.metric_set ≡ a.metric_set)
    × (lowered_period b ≡ lowered_period a)
    × (b.devinfo ≡ a.devinfo)
    × (b.stream_id ≡ a.stream_id)

pub stopped-Settings : (ctx : Context) → Settings ctx (stopped ctx)
unfolding lowered_period close_i915_perf_stream
stopped-Settings ctx =
    let oa = close_stream-Kept ctx.oa_stream ctx in
    let rest = close_tracepoints-Kept ctx.perf_tracepoints (close_i915_perf_stream ctx) in
    let same : (close_tracepoints ctx.perf_tracepoints (close_i915_perf_stream ctx)).1
        ≡ record ctx { streams = rest.0; sent = rest.1; oa_stream = 0 } =
      rest.2 ∙ ap (λ (x : Context). with_streams rest.0 rest.1 (record x { oa_stream = 0 })) oa.2 in
    (
      ap (λ (x : Context). x.oa_stream) same,
      ap (λ (x : Context). x.metric_set) same,
      ap lowered_period same,
      ap (λ (x : Context). x.devinfo) same,
      ap (λ (x : Context). x.stream_id) same,
    )

stop_sampling_idle : (ctx : Context) → ctx.is_sampling ≡ false → stop_sampling ctx ≡ ctx
unfolding stop_sampling
stop_sampling_idle ctx idle = ap (λ b. if b then stopped ctx else ctx) idle

stop_sampling-Settings :
    (ctx : Context)
    → Owned ctx
    → (ctx.is_sampling ≡ false → ctx.oa_stream ≡ 0)
    → Owned (stop_sampling ctx) × Settings ctx (stop_sampling ctx)
stop_sampling-Settings ctx o idle_closed = elim (Bool-cases ctx.is_sampling) [
  | inl sampling ↦ (
    (stop_sampling-Owned ctx o sampling).0,
    subst (λ x. Settings ctx x) (sym (stop_sampling-stopped ctx sampling)) (stopped-Settings ctx),
  )
  | inr idle ↦
      subst (λ x. Owned x × Settings ctx x) (sym (stop_sampling_idle ctx idle))
        (o, (idle_closed idle, refl, refl, refl, refl))
]

-- With a metric set and a sampling period that has an exponent,
-- `gputop_client_context_start_sampling` succeeds, whether or not the client samples already: the
-- OA stream is the next stream to be opened, the client samples, and the list of open streams
-- holds exactly those that some part of the context owns.
pub start_sampling-Owned :
    (ctx : Context) (metric_set : MetricSet) (period exponent : ℕ)
    → Owned ctx
    → (ctx.is_sampling ≡ false → ctx.oa_stream ≡ 0)
    → ctx.metric_set ≡ some metric_set
    → lowered_period ctx ≡ some period
    → time_to_oa_exponent ctx.devinfo period ≡ some exponent
    → (c : Context) × (start_sampling ctx ≡ some c)
      × Owned c
      × (c.oa_stream ≡ ctx.stream_id)
      × (c.is_sampling ≡ true)
unfolding start_sampling
start_sampling-Owned ctx metric_set period exponent o idle_closed set lowered chosen =
    let stop = stop_sampling-Settings ctx o idle_closed in
    let s = stop_sampling ctx in
    let ready =
      open_i915-opened s metric_set period exponent stop.1.0 (stop.1.1 ∙ set) (stop.1.2 ∙ lowered)
        (ap (λ d. time_to_oa_exponent d period) stop.1.3 ∙ chosen) in
    let done = started-Owned s metric_set period exponent stop.0 stop.1.0 in
    (
      started (opened s metric_set period exponent),
      ap (λ o. o >>= λ opened. some (started opened)) ready,
      done.0,
      done.1 ∙ stop.1.4,
      refl,
    )
