-- ===== src/Oa/Accumulator.antt =====
-- `struct gputop_cc_oa_accumulator` and its operations, lib/gputop-oa-counters.c.
pub mod Slots
pub mod Formats
pub mod Invariant
pub mod Totals
use gputop.Base.{
  ℕ, ◌+◌, ◌-◌, ◌*◌, ◌^◌, bit_or, Bool, true, false, ◌||◌, Option, none, some, List, ltb, ◌==◌,
  if◌then◌else◌, get_or, set, replicate, u32, u64, sub32, sub64, counted, ◌>>=◌,
}
use gputop.Oa.Device.{DevInfo, MetricSet, a45_b8_c8, a32u40_a4u32_b8_c8}
use gputop.Oa.Report.{Report, word, byte_at, report_get_timestamp}
use gputop.Oa.Clock.{U32Clock, stopped_clock, clock_init, clock_get_time, clock_progress}

pub record Accumulator : Type 0 where
  pub devinfo : DevInfo
  pub metric_set : MetricSet
  pub aggregation_period : ℕ
  pub first_timestamp : ℕ
  pub last_timestamp : ℕ
  pub deltas : List ℕ
  pub clock : U32Clock

-- `MAX_RAW_OA_COUNTERS`.
abbrev pub max_raw_oa_counters : ℕ
max_raw_oa_counters = 62

-- `deltas[k] += x` on 64 bits.
abbrev pub add_at : List ℕ → ℕ → ℕ → List ℕ
add_at deltas k x = set deltas k (u64 (get_or deltas k 0 + x))

-- `accumulate_uint32`, from word `i` of the reports to `deltas[k]`.
unfoldable pub accumulate_uint32 : ℕ → Report → Report → List ℕ → ℕ → List ℕ
accumulate_uint32 i report0 report1 deltas k =
    add_at deltas k (sub32 (word report1 i) (word report0 i))

-- The 40-bit A counter: its low word, and its high byte in the bytes from word 40 on.
unfoldable pub value40 : ℕ → Report → ℕ
value40 a_index report =
    bit_or (word report (a_index + 4)) (byte_at report (40 * 4 + a_index) * 2 ^ 32)

-- `accumulate_uint40`, from A counter `a_index` to `deltas[k]`.
unfoldable pub accumulate_uint40 : ℕ → Report → Report → List ℕ → ℕ → List ℕ
accumulate_uint40 a_index report0 report1 deltas k =
    let value0 = value40 a_index report0 in
    let value1 = value40 a_index report1 in
    add_at deltas k
      (if ltb value1 value0 then sub64 (2 ^ 40 + value1) value0 else sub64 value1 value0)

-- The two cases of the `switch`; the loops count `idx` up from the slot named here.
unfoldable pub accumulate_a32u40 : Report → Report → List ℕ → List ℕ
accumulate_a32u40 start end deltas0 =
    let deltas1 = accumulate_uint32 1 start end deltas0 0 in
    let deltas2 = accumulate_uint32 3 start end deltas1 1 in
    let deltas3 = counted 32 0 (λ i d. accumulate_uint40 i start end d (2 + i)) deltas2 in
    let deltas4 = counted 4 0 (λ i d. accumulate_uint32 (36 + i) start end d (34 + i)) deltas3 in
    counted 16 0 (λ i d. accumulate_uint32 (48 + i) start end d (38 + i)) deltas4

unfoldable pub accumulate_a45 : Report → Report → List ℕ → List ℕ
accumulate_a45 start end deltas0 =
    let deltas1 = accumulate_uint32 1 start end deltas0 0 in
    counted 61 0 (λ i d. accumulate_uint32 (3 + i) start end d (1 + i)) deltas1

-- The `switch` on the report format; `none` is its `assert(0)`.
unfoldable pub accumulate_deltas : ℕ → Report → Report → List ℕ → Option (List ℕ)
accumulate_deltas format start end deltas =
    if format == a32u40_a4u32_b8_c8
    then some (accumulate_a32u40 start end deltas)
    else if format == a45_b8_c8
    then some (accumulate_a45 start end deltas)
    else none

-- The clock that a pair of reports is accumulated on: started at the first report if need be.
unfoldable pub running_clock : Accumulator → Report → U32Clock
running_clock accumulator report0 = elim accumulator.clock.devinfo [
  | none ↦ clock_init accumulator.devinfo (report_get_timestamp report0)
  | some _ ↦ accumulator.clock
]

abbrev pub first_or : ℕ → ℕ → ℕ
first_or first now = if first == 0 then now else first

-- `gputop_cc_oa_accumulate_reports`. The result `none` is a failed assertion or a NULL clock.
unfoldable pub accumulate_reports : Accumulator → Report → Report → Option (Bool × Accumulator)
unfolding running_clock
accumulate_reports accumulator report0 report1 =
    if (word report0 1 == 0) || (word report1 1 == 0) then some (false, accumulator) else do
      let clock = running_clock accumulator report0
      deltas ←
          accumulate_deltas accumulator.metric_set.perf_oa_format report0 report1 accumulator.deltas
      clock' ← clock_progress clock (word report0 1) (word report1 1)
      some (
        true,
        record accumulator {
          clock = clock';
          first_timestamp = first_or accumulator.first_timestamp (clock_get_time clock);
          last_timestamp = clock_get_time clock';
          deltas = deltas;
        },
      )

-- `gputop_cc_oa_accumulator_clear`; the clock runs on.
unfoldable pub accumulator_clear : Accumulator → Accumulator
accumulator_clear accumulator = record accumulator {
  deltas = replicate max_raw_oa_counters 0;
  first_timestamp = 0;
  last_timestamp = 0;
}

-- An `int` parameter stored into a `uint64_t`: the sign bit of the low 32 bits is extended.
unfoldable pub u64_of_int : ℕ → ℕ
u64_of_int n = if ltb (u32 n) (2 ^ 31) then u32 n else u32 n + (2 ^ 64 - 2 ^ 32)

-- The accumulator after the `memset` and the plain stores of `gputop_cc_oa_accumulator_init`.
abbrev pub blank : DevInfo → MetricSet → ℕ → Accumulator
blank devinfo metric_set aggregation_period = record {
  devinfo = devinfo;
  metric_set = metric_set;
  aggregation_period = u64_of_int aggregation_period;
  first_timestamp = 0;
  last_timestamp = 0;
  deltas = replicate max_raw_oa_counters 0;
  clock = stopped_clock;
}

-- The clock and the first timestamp, where the source is given a first report.
unfoldable pub start_at : Option Report → Accumulator → Accumulator
unfolding clock_init
start_at none accumulator = accumulator
start_at (some report) accumulator =
    let clock = clock_init accumulator.devinfo (report_get_timestamp report) in
    record accumulator { clock = clock; first_timestamp = clock_get_time clock }

-- `gputop_cc_oa_accumulator_init`; `none` is the assertion on the report format.
unfoldable pub accumulator_init : DevInfo → MetricSet → ℕ → Option Report → Option Accumulator
unfolding u64_of_int start_at
accumulator_init devinfo metric_set aggregation_period first_report =
    if metric_set.perf_oa_format == 0
    then none
    else some (start_at first_report (blank devinfo metric_set aggregation_period))
