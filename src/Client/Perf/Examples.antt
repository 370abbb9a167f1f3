-- ===== src/Client/Perf/Examples.antt =====
-- The theorems on the samples of an i915 perf stream at concrete inputs, and tests.
use gputop.Base.{
  All-get_or, inr, ltb, ◌&&◌, ℕ, ◌+◌, ◌*◌, ◌^◌, ◌<◌, ◌≤◌, ◌-◌, sub32, ◌≡◌, true, false, none, some,
  List, [], ◌∷◌, arith, refl, inl, replicate, All-replicate, All, Ensures, Ensures-of,
}
use gputop.Oa.Report.{Report, IsReport}
use gputop.Oa.Record.{Configuration, PerfRecord, record_report, record_field}
use gputop.Oa.Examples.{skylake, test_oa}
use gputop.Client.Streams.{Context}
use gputop.Client.Perf.{Samples, PerfContext, i915_perf_timestamp}
use gputop.Client.Perf.Stream.{accumulate_graph, elapsed, handle_i915_perf_data, last_report}
use gputop.Client.Perf.Emptied.{i915_perf_empty_samples}
use gputop.Client.Perf.Getting.{IsSample}
use gputop.Client.Perf.Walk.{IsRecord}
use gputop.Client.Perf.Handled.{IsKept, handle_i915_perf_data-IsKept}
use gputop.Client.Perf.Reached.{HasSet, Reaches, begin, start, Reaches-no_fault}
use gputop.Client.Perf.Timestamps.{after, i915_perf_timestamp_ticks}
use gputop.Oa.Accumulator.{Accumulator, start_at, blank, accumulate_reports}
use gputop.Oa.Accumulator.Invariant.{IsValid, Accumulated, accumulate_reports-Accumulated}
use gputop.Client.Perf.Counting.{here}
use gputop.Client.Perf.Kept.{Kept}
use gputop.Client.Perf.Period.{Outcome, accumulate_graph-Outcome}
use gputop.Client.Perf.Emptied.{client_context_init}
use gputop.Client.Perf.Cleared.{IsEmpty, i915_perf_empty_samples-IsEmpty}

abbrev config : Configuration
config = record { oa_reports = true; cpu_timestamps = false; gpu_timestamps = false }

abbrev sampling : Context
sampling = record {
  devinfo = skylake;
  metric_set = some test_oa;
  n_cpus = 1;
  is_sampling = true;
  oa_aggregation_period_ns = 1000000;
  oa_sampling_period_ns = 100000;
  cpu_stats_sampling_period_ms = 100;
  stream_id = 3;
  streams = 2 ∷ [];
  oa_stream = 2;
  cpu_stats_stream = 0;
  perf_tracepoints = [];
  sent = [];
}

abbrev started : PerfContext
started = start sampling config 1 7000000

-- A report of the running context at a time.
abbrev report_at : ℕ → ℕ → Report
report_at timestamp hw_id = 2 ^ 16 ∷ timestamp ∷ hw_id ∷ replicate 61 7

abbrev sample_at : ℕ → ℕ → PerfRecord
sample_at timestamp hw_id = record {
  kind = 1;
  size = 264;
  words = 1 ∷ 264 * 2 ^ 16 ∷ report_at timestamp hw_id;
}

-- Two contexts in turn; a period of 1 ms has 12000 ticks.
abbrev two_contexts : List PerfRecord
two_contexts =
    sample_at 1000 42
    ∷ sample_at 7000 42
    ∷ sample_at 9000 43
    ∷ sample_at 14000 43
    ∷ sample_at 20000 42
    ∷ []

report_at-IsReport : (t k : ℕ) → t < 2 ^ 32 → k < 2 ^ 32 → IsReport (report_at t k)
report_at-IsReport t k h h' =
    (refl, (omega arith, (h, (h', All-replicate (λ w. w < 2 ^ 32) 61 7 (omega arith)))))

sample_at-IsSample : (t k : ℕ) → t < 2 ^ 32 → k < 2 ^ 32 → IsSample config (sample_at t k)
unfolding record_report record_field
sample_at-IsSample t k h h' = (report_at t k, refl, report_at-IsReport t k h h')

sample_at-IsRecord : (t k : ℕ) → t < 2 ^ 32 → k < 2 ^ 32 → IsRecord config (sample_at t k)
sample_at-IsRecord t k h h' = λ _. sample_at-IsSample t k h h'

two_contexts-IsRecord : All (IsRecord config) two_contexts
two_contexts-IsRecord = (
  sample_at-IsRecord 1000 42 (omega arith) (omega arith),
  (
    sample_at-IsRecord 7000 42 (omega arith) (omega arith),
    (
      sample_at-IsRecord 9000 43 (omega arith) (omega arith),
      (
        sample_at-IsRecord 14000 43 (omega arith) (omega arith),
        (sample_at-IsRecord 20000 42 (omega arith) (omega arith), tt),
      ),
    ),
  ),
)

sampling-HasSet : HasSet sampling
sampling-HasSet = Ensures-of test_oa refl (inl refl)

Reaches-no_fault_example :
    IsKept config started
    × ((stream_id : ℕ) (records : List PerfRecord)
        → All (IsRecord config) records
        → Ensures (handle_i915_perf_data stream_id records started) (Reaches config started))
    × Ensures (i915_perf_empty_samples started) (λ ctx. Reaches config started ctx × IsEmpty ctx)
Reaches-no_fault_example = Reaches-no_fault sampling config 1 7000000 started sampling-HasSet begin

handle_i915_perf_data-IsKept_example :
    Ensures (handle_i915_perf_data 2 two_contexts started) (IsKept config)
handle_i915_perf_data-IsKept_example =
    handle_i915_perf_data-IsKept config 2 two_contexts started two_contexts-IsRecord
      Reaches-no_fault_example.0

i915_perf_empty_samples-IsEmpty_example :
    Ensures
      (i915_perf_empty_samples handle_i915_perf_data-IsKept_example.result)
      (λ ctx. IsKept config ctx × IsEmpty ctx)
i915_perf_empty_samples-IsEmpty_example =
    i915_perf_empty_samples-IsEmpty config handle_i915_perf_data-IsKept_example.result
      handle_i915_perf_data-IsKept_example.holds

-- Where the counter wraps, 6000 ticks become nearly 2^64.
abbrev before_wrap : PerfContext
before_wrap = record started {
  last_chunk = some 0;
  last_header = some (sample_at (2 ^ 32 - 5000) 42);
}

i915_perf_timestamp_ticks_example :
    (2 ^ 32 - 5000 ≤ 1000
      → i915_perf_timestamp before_wrap (sample_at 1000 42)
        ≡ some (after before_wrap (sub32 1000 (2 ^ 32 - 5000))))
    × (1000 < 2 ^ 32 - 5000
        → i915_perf_timestamp before_wrap (sample_at 1000 42)
          ≡ some (after before_wrap (sub32 1000 (2 ^ 32 - 5000) + (2 ^ 64 - 2 ^ 32))))
unfolding record_report record_field
i915_perf_timestamp_ticks_example =
    i915_perf_timestamp_ticks before_wrap (sample_at 1000 42) (sample_at (2 ^ 32 - 5000) 42)
      (report_at 1000 42) (report_at (2 ^ 32 - 5000) 42) refl refl refl refl
      (report_at-IsReport 1000 42 (omega arith) (omega arith))
      (report_at-IsReport (2 ^ 32 - 5000) 42 (omega arith) (omega arith))

-- A client in its first aggregation period, after one report.
abbrev first_report : Report
first_report = report_at 1000 42

abbrev first_accumulator : Accumulator
first_accumulator = start_at (some first_report) (blank skylake test_oa 1000000)

abbrev running : Samples
running = record {
  context = none;
  timestamp_start = 0;
  timestamp_end = 0;
  start_report = record { chunk = 0; header = sample_at 1000 42 };
  end_report = none;
  accumulator = first_accumulator;
}

abbrev in_period : PerfContext
in_period = record started {
  i915_perf_chunks = record { id = 0; refcount = 3 } ∷ [];
  next_chunk = 1;
  last_chunk = some 0;
  last_header = some (sample_at 1000 42);
  current_graph_samples = some running;
}

first_accumulator-IsValid : IsValid first_accumulator
unfolding start_at
first_accumulator-IsValid = record {
  format = inl refl;
  slots = refl;
  fits = λ j.
      All-get_or (λ x. x < 2 ^ 64) (replicate 62 0) j 0 (omega arith)
        (All-replicate (λ x. x < 2 ^ 64) 62 0 (omega arith));
  clock = inr refl;
}

first_report-IsReport : IsReport first_report
first_report-IsReport = report_at-IsReport 1000 42 (omega arith) (omega arith)

in_period-Kept : Kept config (some first_report) true (here 0) in_period
unfolding client_context_init last_report record_report record_field
in_period-Kept = record {
  same = refl;
  ready = record {
    set = sampling-HasSet;
    last = sample_at-IsSample 1000 42 (omega arith) (omega arith);
  };
  last_is = refl;
  last_whole = first_report-IsReport;
  current = (
    (refl, refl, first_accumulator-IsValid),
    sample_at-IsSample 1000 42 (omega arith) (omega arith),
  );
  graphs = tt;
  n_graphs = refl;
  few = omega arith;
  timeline = tt;
  timelines = tt;
  n_timelines = refl;
  stored = record {
    contexts = tt;
    samples = λ h. omega arith;
    chunks = record { counts = λ j. ground arith; live = ((omega arith, omega arith), tt) };
  };
}

-- The report after 20000 - 1000 ticks.
abbrev second :
    (a' : Accumulator) × (accumulate_reports first_accumulator first_report (report_at 20000 42)
      ≡ some (true, a'))
    × Accumulated first_accumulator first_report (report_at 20000 42) a'
second =
    accumulate_reports-Accumulated first_accumulator first_report (report_at 20000 42)
      first_accumulator-IsValid first_report-IsReport
      (report_at-IsReport 20000 42 (omega arith) (omega arith))
      (λ e. absurd (omega (arith, e)), λ e. absurd (omega (arith, e)))

accumulate_graph-Outcome_example :
    Ensures (accumulate_graph 0 (sample_at 20000 42) first_report (report_at 20000 42) in_period) (
      Outcome config first_report
        (here 0)
        0
        (sample_at 20000 42)
        (record running { accumulator = second.0 })
        (true && ltb 1000000 (elapsed second.0))
        in_period)
unfolding client_context_init
accumulate_graph-Outcome_example =
    accumulate_graph-Outcome 0 (sample_at 20000 42)
      (sample_at-IsSample 20000 42 (omega arith) (omega arith)) (omega arith) (report_at 20000 42)
      (report_at-IsReport 20000 42 (omega arith) (omega arith)) first_report in_period running
      (true, second.0) in_period-Kept refl second.1
