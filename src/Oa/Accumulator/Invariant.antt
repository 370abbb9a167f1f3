-- ===== src/Oa/Accumulator/Invariant.antt =====
-- The accumulator's invariant, and what every operation does to it on every branch.
use gputop.Base.{
  ℕ, ◌+◌, ◌^◌, ◌<◌, ◌≡◌, ◌≢◌, Option, none, some, true, false, ◌||◌, arith, u64, refl, length, ◌==◌,
  ◌⊎◌, inl, inr, set, replicate, All-replicate, All-get_or,
}
use gputop.Oa.Device.{DevInfo, MetricSet}
use gputop.Oa.Report.{Report, IsReport, word}
use gputop.Oa.Clock.{U32Clock, clock_init, ticked, clock_progress}
use gputop.Oa.Accumulator.{
  Accumulator, accumulate_reports, accumulator_clear, accumulator_init, running_clock, first_or,
  blank, start_at,
}
use gputop.Oa.Accumulator.Slots.{slot, growth}
use gputop.Oa.Accumulator.Formats.{counter_value, counter_size, IsFormat, accumulate_deltas_slots}

pub record IsValid (a : Accumulator) : Type 0 where
  pub format : IsFormat a.metric_set.perf_oa_format
  pub slots : length a.deltas ≡ 62
  pub fits : (j : ℕ) → slot a.deltas j < 2 ^ 64
  pub clock : (a.clock.devinfo ≡ none) ⊎ (a.clock.devinfo ≡ some a.devinfo)

-- Neither report has the timestamp 0, which the source takes for a spurious report.
abbrev pub HasTimestamps : Report → Report → Type 0
HasTimestamps r0 r1 = (word r0 1 ≢ 0) × (word r1 1 ≢ 0)

abbrev pub grown : Accumulator → Report → Report → ℕ → ℕ
grown a r0 r1 j =
    let format = a.metric_set.perf_oa_format in
    u64 (
      slot a.deltas j
      + growth (counter_size format j) (counter_value format r0 j) (counter_value format r1 j))

-- What a pair of reports with timestamps does.
pub record Accumulated (a : Accumulator) (r0 r1 : Report) (a' : Accumulator) : Type 0 where
  pub valid : IsValid a'
  pub same_set : a'.metric_set ≡ a.metric_set
  pub same_devinfo : a'.devinfo ≡ a.devinfo
  pub counted : (j : ℕ) → slot a'.deltas j ≡ grown a r0 r1 j
  pub clock_on : a'.clock.devinfo ≡ some a.devinfo
  pub clock_last : a'.clock.last_u32 ≡ word r1 1
  pub last : a'.last_timestamp ≡ a'.clock.timestamp

-- The running clock is on the accumulator's device.
running_clock_lem :
    (a : Accumulator) (r0 : Report) → IsValid a → (running_clock a r0).devinfo ≡ some a.devinfo
unfolding running_clock clock_init
running_clock_lem a r0 v = ground (arith, v.clock)

progress_total :
    (c : U32Clock) (d : DevInfo) (s e : ℕ)
    → c.devinfo ≡ some d
    → (c' : U32Clock) × (clock_progress c s e ≡ some c') × (c'.devinfo ≡ some d) × (c'.last_u32 ≡ e)
unfolding clock_progress
progress_total c d s e h = (ticked d c s e, rw h refl, h, refl)

present : (x y : ℕ) → x ≢ 0 → y ≢ 0 → ((x == 0) || (y == 0)) ≡ false
present x y h k = ground arith

u64-lt : (n : ℕ) → u64 n < 2 ^ 64
u64-lt n = omega arith

-- `gputop_cc_oa_accumulate_reports` on a valid accumulator and two whole reports that carry
-- timestamps returns true without a failed assertion or a NULL clock, keeps the invariant, adds
-- the growth of every counter to its slot and leaves the clock at the second report.
pub accumulate_reports-Accumulated :
    (a : Accumulator) (r0 r1 : Report)
    → IsValid a
    → IsReport r0
    → IsReport r1
    → HasTimestamps r0 r1
    → (a' : Accumulator) × (accumulate_reports a r0 r1 ≡ some (true, a')) × Accumulated a r0 r1 a'
unfolding accumulate_reports
accumulate_reports-Accumulated a r0 r1 v v0 v1 t =
    let deltas =
      accumulate_deltas_slots a.metric_set.perf_oa_format r0 r1 a.deltas v.format v0 v1 v.slots
        v.fits in
    let clock =
      progress_total (running_clock a r0) a.devinfo (word r0 1) (word r1 1)
        (running_clock_lem a r0 v) in
    (
      record a {
        clock = clock.0;
        first_timestamp = first_or a.first_timestamp (running_clock a r0).timestamp;
        last_timestamp = clock.0.timestamp;
        deltas = deltas.0;
      },
      rw (present (word r0 1) (word r1 1) t.0 t.1, deltas.1, clock.1) refl,
      record {
        valid = record {
          format = v.format;
          slots = deltas.2;
          fits = λ j. rw (deltas.3 j) (u64-lt _);
          clock = inr clock.2;
        };
        same_set = refl;
        same_devinfo = refl;
        counted = deltas.3;
        clock_on = clock.2;
        clock_last = clock.3;
        last = refl;
      },
    )

-- A report with the timestamp 0 is refused, and changes nothing.
pub accumulate_reports_spurious :
    (a : Accumulator) (r0 r1 : Report)
    → (word r0 1 ≡ 0) ⊎ (word r1 1 ≡ 0)
    → accumulate_reports a r0 r1 ≡ some (false, a)
unfolding accumulate_reports
accumulate_reports_spurious a r0 r1 h = ground arith

zeros : (j : ℕ) → slot (replicate 62 0) j < 2 ^ 64
zeros j =
    All-get_or (λ x. x < 2 ^ 64) (replicate 62 0) j 0 (omega arith)
      (All-replicate (λ x. x < 2 ^ 64) 62 0 (omega arith))

no_counts : (j : ℕ) → slot (replicate 62 0) j ≡ 0
no_counts j =
    All-get_or (λ x. x ≡ 0) (replicate 62 0) j 0 refl (All-replicate (λ x. x ≡ 0) 62 0 refl)

format_nonzero : (format : ℕ) → IsFormat format → (format == 0) ≡ false
format_nonzero format h = ground arith

-- `gputop_cc_oa_accumulator_clear` keeps the invariant, forgets counts and timestamps, and lets
-- the clock run on.
pub accumulator_clear-IsValid :
    (a : Accumulator)
    → IsValid a
    → IsValid (accumulator_clear a)
      × ((j : ℕ) → slot (accumulator_clear a).deltas j ≡ 0)
      × ((accumulator_clear a).first_timestamp ≡ 0)
      × ((accumulator_clear a).clock ≡ a.clock)
unfolding accumulator_clear
accumulator_clear-IsValid a v = (
  record { format = v.format; slots = refl; fits = zeros; clock = v.clock },
  no_counts,
  refl,
  refl,
)

-- `gputop_cc_oa_accumulator_init` on a supported format gives a valid accumulator with all counts
-- 0, whose clock is stopped without a first report and else stands at that report.
pub accumulator_init-IsValid :
    (devinfo : DevInfo) (set : MetricSet) (period : ℕ) (first : Option Report)
    → IsFormat set.perf_oa_format
    → (a : Accumulator) × (accumulator_init devinfo set period first ≡ some a)
      × IsValid a
      × ((j : ℕ) → slot a.deltas j ≡ 0)
      × (a.metric_set ≡ set)
      × (a.devinfo ≡ devinfo)
unfolding accumulator_init
accumulator_init-IsValid devinfo set period none format =
    let a = blank devinfo set period in
    (
      a,
      rw (format_nonzero set.perf_oa_format format) refl,
      record { format = format; slots = refl; fits = zeros; clock = inl refl },
      no_counts,
      refl,
      refl,
    )
accumulator_init-IsValid devinfo set period (some r) format =
    let a = start_at (some r) (blank devinfo set period) in
    (
      a,
      rw (format_nonzero set.perf_oa_format format) refl,
      record { format = format; slots = refl; fits = zeros; clock = inr refl },
      no_counts,
      refl,
      refl,
    )
