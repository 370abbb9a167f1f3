-- ===== src/Client/Perf/Timestamps.antt =====
-- The time of a record that the client computes from the timestamps of two reports.
use gputop.Base.{
  ℕ, ◌+◌, ◌-◌, ◌^◌, ◌≤◌, ◌<◌, ◌≡◌, refl, ap, ◌∙◌, arith, false, some, if◌then◌else◌, u64, sub32,
  sub64, ◌>>=◌,
}
use gputop.Oa.Report.{Report, IsReport, word, report_get_timestamp}
use gputop.Oa.Timebase.{timebase_scale_ns}
use gputop.Oa.Accumulator.Slots.{word-lt}
use gputop.Oa.Record.{PerfRecord, record_report}
use gputop.Client.Perf.{
  PerfContext, record_cpu_timestamp, report_timestamp, previous_timestamp, i915_perf_timestamp,
}

-- The time that comes a number of ticks after the last record.
abbrev pub after : PerfContext → ℕ → ℕ
after ctx ticks = u64 (ctx.last_oa_timestamp + timebase_scale_ns ctx.client.devinfo ticks)

report_timestamp_lem :
    (ctx : PerfContext) (header : PerfRecord) (report : Report)
    → record_report ctx.i915_perf_config header ≡ some report
    → report_timestamp ctx.i915_perf_config header ≡ some (word report 1)
unfolding report_timestamp report_get_timestamp
report_timestamp_lem ctx header report e = rw e refl

previous_timestamp_lem :
    (ctx : PerfContext) (last : PerfRecord) (prev : Report) (ts : ℕ)
    → ctx.last_header ≡ some last
    → record_report ctx.i915_perf_config last ≡ some prev
    → previous_timestamp ctx ts ≡ some (word prev 1)
unfolding previous_timestamp
previous_timestamp_lem ctx last prev ts e e' = rw e (report_timestamp_lem ctx last prev e')

timestamp_lem :
    (ctx : PerfContext) (header last : PerfRecord) (report prev : Report)
    → ctx.i915_perf_config.cpu_timestamps ≡ false
    → record_report ctx.i915_perf_config header ≡ some report
    → ctx.last_header ≡ some last
    → record_report ctx.i915_perf_config last ≡ some prev
    → i915_perf_timestamp ctx header ≡ some (after ctx (sub64 (word report 1) (word prev 1)))
unfolding i915_perf_timestamp
timestamp_lem ctx header last report prev no_cpu e e' e'' =
    let shifted = λ (ts prev_ts : ℕ). some (after ctx (sub64 ts prev_ts)) in
    let on = λ (ts : ℕ). previous_timestamp ctx ts >>= shifted ts in
    let oa = report_timestamp ctx.i915_perf_config header >>= on in
    ap (λ b. if b then record_cpu_timestamp ctx.i915_perf_config header else oa) no_cpu
    ∙ ap (λ o. o >>= on) (report_timestamp_lem ctx header report e)
    ∙ ap (λ o. o >>= shifted (word report 1))
        (previous_timestamp_lem ctx last prev (word report 1) e' e'')

sub64-le : (a b : ℕ) → a < 2 ^ 32 → b ≤ a → sub64 a b ≡ sub32 a b
sub64-le a b h k = omega arith

sub64-gt : (a b : ℕ) → b < 2 ^ 32 → a < b → sub64 a b ≡ sub32 a b + (2 ^ 64 - 2 ^ 32)
sub64-gt a b h k = omega arith

-- Without timestamps of the processor, the time of a record is the last time and the ticks since
-- the last report where the 32-bit timestamps went up. Where they wrapped, 2^64 - 2^32 ticks are
-- added that never passed, since the difference is taken on 64 bits.
pub i915_perf_timestamp_ticks :
    (ctx : PerfContext) (header last : PerfRecord) (report prev : Report)
    → ctx.i915_perf_config.cpu_timestamps ≡ false
    → record_report ctx.i915_perf_config header ≡ some report
    → ctx.last_header ≡ some last
    → record_report ctx.i915_perf_config last ≡ some prev
    → IsReport report
    → IsReport prev
    → (word prev 1 ≤ word report 1
        → i915_perf_timestamp ctx header ≡ some (after ctx (sub32 (word report 1) (word prev 1))))
      × (word report 1 < word prev 1
          → i915_perf_timestamp ctx header
            ≡ some (after ctx (sub32 (word report 1) (word prev 1) + (2 ^ 64 - 2 ^ 32))))
i915_perf_timestamp_ticks ctx header last report prev no_cpu e e' e'' v v' =
    let t = timestamp_lem ctx header last report prev no_cpu e e' e'' in
    (
      λ h.
          t
          ∙ ap (λ ticks. some (after ctx ticks))
              (sub64-le (word report 1) (word prev 1) (word-lt report 1 v) h),
      λ h.
          t
          ∙ ap (λ ticks. some (after ctx ticks))
              (sub64-gt (word report 1) (word prev 1) (word-lt prev 1 v') h),
    )
