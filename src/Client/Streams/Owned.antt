-- ===== src/Client/Streams/Owned.antt =====
-- The list of open streams holds exactly the streams that some part of the context owns.
use gputop.Base.{
  ℕ, ◌+◌, ◌-◌, ◌<◌, ◌≡◌, refl, ap, ◌∙◌, true, false, List, [], ◌∷◌, arith, ◌==◌, ==_iff, Bool-cases,
  inl, inr, if◌then◌else◌,
}
use gputop.Client.Streams.{
  Context, Tracepoint, remove, open_stream, close_stream, close_i915_perf_stream, close_all,
  close_tracepoints, with_tracepoints, stop_sampling, open_cpu_stats_stream, update_cpu_stream,
}

-- Whether a stream is the one with an id, as a number.
abbrev pub is : ℕ → ℕ → ℕ
is id s = if id == s then 1 else 0

unfoldable pub count : ℕ → List ℕ → ℕ
count id [] = 0
count id (s ∷ rest) = is id s + count id rest

-- How often the tracepoints own a stream.
unfoldable pub tracepoints_count : ℕ → List Tracepoint → ℕ
tracepoints_count id [] = 0
tracepoints_count id (tp ∷ tps) = count id tp.streams + tracepoints_count id tps

-- Every id but 0 is in the list as often as the OA stream, the statistics stream and the
-- tracepoints own it, and the next id is not 0.
pub record Owned (ctx : Context) : Type 0 where
  pub next : 0 < ctx.stream_id
  pub owners :
      (id : ℕ)
      → 0 < id
      → count id ctx.streams
        ≡ is id ctx.oa_stream
          + is id ctx.cpu_stats_stream
          + tracepoints_count id ctx.perf_tracepoints

-- What closing streams leaves as it was.
abbrev pub Frame : Context → Context → Type 0
Frame a b =
    (b.oa_stream ≡ a.oa_stream)
    × (b.cpu_stats_stream ≡ a.cpu_stats_stream)
    × (b.stream_id ≡ a.stream_id)
    × (b.perf_tracepoints ≡ a.perf_tracepoints)

count-remove : (id s : ℕ) (xs : List ℕ) → count id (remove s xs) ≡ count id xs - is id s
unfolding count
count-remove id s [] = omega arith
count-remove id s (x ∷ xs) = elim (Bool-cases (s == x)) [
  | inl e ↦ let e' : s ≡ x = (==_iff s x).0 e in rw (e, e') omega arith
  | inr n ↦ rw n ground (arith, count-remove id s xs)
]

count-close_stream :
    (id s : ℕ) (ctx : Context)
    → 0 < id
    → (count id (close_stream s ctx).streams ≡ count id ctx.streams - is id s)
      × Frame ctx (close_stream s ctx)
unfolding close_stream
count-close_stream id s ctx h = elim (Bool-cases (s == 0)) [
  | inl e ↦
      let e' : s ≡ 0 = (==_iff s 0).0 e in
      let other : (id == 0) ≡ false = ground arith in
      rw (e, e', other) (omega arith, (refl, refl, refl, refl))
  | inr n ↦ rw n (count-remove id s ctx.streams, (refl, refl, refl, refl))
]

pub count-close_all :
    (id : ℕ) (ids : List ℕ) (ctx : Context)
    → 0 < id
    → (count id (close_all ids ctx).streams ≡ count id ctx.streams - count id ids)
      × Frame ctx (close_all ids ctx)
unfolding close_all count
count-close_all id [] ctx h = (omega arith, (refl, refl, refl, refl))
count-close_all id (s ∷ ids) ctx h =
    let rest = count-close_all id ids (close_stream s ctx) h in
    let first = count-close_stream id s ctx h in
    (
      omega (arith, rest.0, first.0),
      (rest.1.0 ∙ first.1.0, rest.1.1 ∙ first.1.1, rest.1.2 ∙ first.1.2, rest.1.3 ∙ first.1.3),
    )

count-close_tracepoints :
    (id : ℕ) (tps : List Tracepoint) (ctx : Context)
    → 0 < id
    → (count id (close_tracepoints tps ctx).1.streams
        ≡ count id ctx.streams - tracepoints_count id tps)
      × (tracepoints_count id (close_tracepoints tps ctx).0 ≡ 0)
      × Frame ctx (close_tracepoints tps ctx).1
unfolding close_tracepoints tracepoints_count count
count-close_tracepoints id [] ctx h = (omega arith, refl, (refl, refl, refl, refl))
count-close_tracepoints id (tp ∷ tps) ctx h =
    let rest = count-close_tracepoints id tps (close_all tp.streams ctx) h in
    let first = count-close_all id tp.streams ctx h in
    (
      omega (arith, rest.0, first.0),
      omega (arith, rest.1),
      (rest.2.0 ∙ first.1.0, rest.2.1 ∙ first.1.1, rest.2.2 ∙ first.1.2, rest.2.3 ∙ first.1.3),
    )

close_i915_lem :
    (id : ℕ) (ctx : Context)
    → 0 < id
    → (count id (close_i915_perf_stream ctx).streams ≡ count id ctx.streams - is id ctx.oa_stream)
      × ((close_i915_perf_stream ctx).oa_stream ≡ 0)
      × ((close_i915_perf_stream ctx).cpu_stats_stream ≡ ctx.cpu_stats_stream)
      × ((close_i915_perf_stream ctx).stream_id ≡ ctx.stream_id)
unfolding close_i915_perf_stream
close_i915_lem id ctx h =
    let closed = count-close_stream id ctx.oa_stream ctx h in
    (closed.0, refl, closed.1.1, closed.1.2)

abbrev pub stopped : Context → Context
stopped ctx =
    record (with_tracepoints
      (close_tracepoints ctx.perf_tracepoints (close_i915_perf_stream ctx))) { is_sampling = false }

pub stop_sampling-stopped :
    (ctx : Context) → ctx.is_sampling ≡ true → stop_sampling ctx ≡ stopped ctx
unfolding stop_sampling
stop_sampling-stopped ctx sampling = ap (λ b. if b then stopped ctx else ctx) sampling

-- `gputop_client_context_stop_sampling` of a sampling client leaves no stream open but that of
-- the processor statistics, and keeps the lists of owners right.
pub stop_sampling-Owned :
    (ctx : Context)
    → Owned ctx
    → ctx.is_sampling ≡ true
    → Owned (stop_sampling ctx)
      × ((id : ℕ) → 0 < id → count id (stop_sampling ctx).streams ≡ is id ctx.cpu_stats_stream)
      × ((stop_sampling ctx).is_sampling ≡ false)
stop_sampling-Owned ctx o sampling = rw (stop_sampling-stopped ctx sampling) (
  record {
    next =
        let closed =
          count-close_tracepoints 1 ctx.perf_tracepoints (close_i915_perf_stream ctx)
            (omega arith) in
        let oa = close_i915_lem 1 ctx (omega arith) in omega (arith, closed.2.2, oa.3, o.next);
    owners = λ id h.
        let closed =
          count-close_tracepoints id ctx.perf_tracepoints (close_i915_perf_stream ctx) h in
        let oa = close_i915_lem id ctx h in
        let none_oa : is id 0 ≡ 0 = ground arith in
        omega (
          arith,
          left id h,
          ap (is id) (closed.2.0 ∙ oa.1),
          none_oa,
          ap (is id) (closed.2.1 ∙ oa.2),
          closed.1,
        );
  },
  left,
  refl,
)
  where
    left : (id : ℕ) → 0 < id → count id (stopped ctx).streams ≡ is id ctx.cpu_stats_stream
    left id h =
        let closed =
          count-close_tracepoints id ctx.perf_tracepoints (close_i915_perf_stream ctx) h in
        let oa = close_i915_lem id ctx h in omega (arith, closed.0, oa.0, o.owners id h)

-- `gputop_client_context_update_cpu_stream` replaces the statistics stream by a new one and keeps
-- the lists of owners right.
pub update_cpu_stream-Owned :
    (ctx : Context) (sampling_period_ms : ℕ)
    → Owned ctx
    → Owned (update_cpu_stream ctx sampling_period_ms)
      × ((update_cpu_stream ctx sampling_period_ms).cpu_stats_stream ≡ ctx.stream_id)
unfolding update_cpu_stream open_cpu_stats_stream open_stream count
update_cpu_stream-Owned ctx period o = (
  record {
    next = omega (arith, (count-close_stream 1 ctx.cpu_stats_stream ctx (omega arith)).1.2);
    owners = λ id h.
        let closed = count-close_stream id ctx.cpu_stats_stream ctx h in
        omega (
          arith,
          closed.0,
          ap (is id) closed.1.0,
          o.owners id h,
          ap (tracepoints_count id) closed.1.3,
        );
  },
  (count-close_stream 1 ctx.cpu_stats_stream ctx (omega arith)).1.2,
)
