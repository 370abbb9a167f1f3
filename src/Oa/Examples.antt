-- ===== src/Oa/Examples.antt =====
-- The theorems on the OA counters at concrete inputs, and tests.
use gputop.Base.{
  ℕ, suc, ◌+◌, ◌^◌, ◌≤◌, ◌<◌, ◌≡◌, ◌⊎◌, inl, true, false, none, some, List, [], ◌∷◌, arith, refl,
  replicate, All-replicate, All-get_or, u64, length, ◌↔◌,
}
use gputop.Oa.Device.{DevInfo, DevTopology, MetricSet}
use gputop.Oa.Timebase.{oa_exponent_to_period_ns, time_to_oa_exponent, timebase_scale_ns}
use gputop.Oa.Timebase.Exponent.{time_to_oa_exponent_largest, time_to_oa_exponent_unreachable_iff}
use gputop.Oa.Report.{Report, IsReport, report_get_reason, report_get_ctx_id}
use gputop.Oa.Clock.{U32Clock, clock_init}
use gputop.Oa.Clock.Drift.{advance, total, Advanced, advance-Advanced}
use gputop.Oa.Accumulator.{Accumulator, accumulate_deltas, accumulate_reports, blank}
use gputop.Oa.Accumulator.Slots.{slot, growth}
use gputop.Oa.Accumulator.Formats.{accumulate_deltas_slots, counter_value, counter_size}
use gputop.Oa.Accumulator.Invariant.{IsValid, Accumulated, accumulate_reports-Accumulated}
use gputop.Oa.Accumulator.Totals.{
  Sample, accumulate_all, total_gain, accumulate_all-total_gain, Follows-growth,
}
use gputop.Oa.Record.{
  Configuration, PerfRecord, oa_report, cpu_timestamp, record_field, record_max_size,
  record_timestamp, record_reason, header_size,
}
use gputop.Oa.Record.Layout.{record_field_layout, record_reads_fault_iff, Apart}

abbrev pub no_topology : DevTopology
no_topology = record {
  max_slices = 1;
  max_subslices = 3;
  max_eus_per_subslice = 8;
  n_threads_per_eu = 7;
  slices_mask = 1 ∷ 0 ∷ 0 ∷ 0 ∷ [];
  subslices_mask = 7 ∷ [];
  eus_mask = 255 ∷ 255 ∷ 255 ∷ [];
  engines = [];
}

abbrev pub skylake : DevInfo
skylake = record {
  devname = "sklgt2";
  prettyname = "Skylake GT2";
  devid = 0x1912;
  gen = 9;
  revision = 0;
  timestamp_frequency = 12000000;
  gt_min_freq = 0;
  gt_max_freq = 0;
  query_mode = false;
  has_dynamic_configs = true;
  topology = no_topology;
  n_eus = 24;
  n_eu_slices = 1;
  n_eu_sub_slices = 3;
  subslice_mask = 7;
  slice_mask = 1;
  eu_threads_count = 168;
}

abbrev pub test_oa : MetricSet
test_oa = record {
  name = "Metric set TestOa";
  symbol_name = "TestOa";
  hw_config_guid = "1651949f-0ac0-4cb1-a06f-dafd74a407d1";
  perf_oa_metrics_set = 1;
  perf_oa_format = 10;
}

-- A report whose counters are at their top, and one behind the wrap.
abbrev top : Report
top = replicate 64 0xffff_ffff

abbrev wrapped : Report
wrapped = replicate 64 5

top-IsReport : IsReport top
top-IsReport = (refl, All-replicate (λ w. w < 2 ^ 32) 64 0xffff_ffff (omega arith))

wrapped-IsReport : IsReport wrapped
wrapped-IsReport = (refl, All-replicate (λ w. w < 2 ^ 32) 64 5 (omega arith))

abbrev fresh : Accumulator
fresh = blank skylake test_oa 60000000

fresh-IsValid : IsValid fresh
fresh-IsValid = record {
  format = inl refl;
  slots = refl;
  fits = λ j.
      All-get_or (λ x. x < 2 ^ 64) (replicate 62 0) j 0 (omega arith)
        (All-replicate (λ x. x < 2 ^ 64) 62 0 (omega arith));
  clock = inl refl;
}

accumulate_deltas_slots_example :
    (d : List ℕ) × (accumulate_deltas 10 top wrapped fresh.deltas ≡ some d)
    × (length d ≡ 62)
    × ((j : ℕ)
        → slot d j
          ≡ u64 (
              slot fresh.deltas j
              + growth (counter_size 10 j) (counter_value 10 top j) (counter_value 10 wrapped j)))
accumulate_deltas_slots_example =
    accumulate_deltas_slots 10 top wrapped fresh.deltas (inl refl) top-IsReport wrapped-IsReport
      refl fresh-IsValid.fits

accumulate_reports-Accumulated_example :
    (a : Accumulator) × (accumulate_reports fresh top wrapped ≡ some (true, a))
    × Accumulated fresh top wrapped a
accumulate_reports-Accumulated_example =
    accumulate_reports-Accumulated fresh top wrapped fresh-IsValid top-IsReport wrapped-IsReport
      (omega arith, omega arith)

abbrev wrap_sample : Sample
wrap_sample = record {
  report = wrapped;
  gain = λ j. growth (counter_size 10 j) (counter_value 10 top j) (counter_value 10 wrapped j);
}

accumulate_all-total_gain_example :
    (a : Accumulator) × (accumulate_all fresh top (wrapped ∷ []) ≡ some a)
    × IsValid a
    × ((j : ℕ) → slot a.deltas j ≡ u64 (slot fresh.deltas j + total_gain j (wrap_sample ∷ [])))
accumulate_all-total_gain_example =
    accumulate_all-total_gain 10 (wrap_sample ∷ []) fresh top refl fresh-IsValid top-IsReport
      (omega arith) (Follows-growth 10 top wrapped top-IsReport wrapped-IsReport (omega arith), tt)

skylake_ticks : 0 < skylake.timestamp_frequency
skylake_ticks = omega arith

advance-Advanced_example :
    (c : U32Clock) × (advance (clock_init skylake 0xffff_fff0) (32 ∷ 7 ∷ []) ≡ some c)
    × Advanced skylake skylake_ticks (clock_init skylake 0xffff_fff0) 2 39 c
unfolding clock_init timebase_scale_ns total
advance-Advanced_example =
    advance-Advanced skylake skylake_ticks (clock_init skylake 0xffff_fff0) (32 ∷ 7 ∷ [])
      (record { has_devinfo = refl; last_fits = omega arith }) (omega arith) (omega arith)
      (omega arith)

time_to_oa_exponent_largest_example :
    (e : ℕ) × (time_to_oa_exponent skylake 1000000 ≡ some e)
    × ((e ≡ 0) ⊎ (oa_exponent_to_period_ns skylake e ≤ 1000000))
    × (1000000 < oa_exponent_to_period_ns skylake (suc e))
time_to_oa_exponent_largest_example =
    time_to_oa_exponent_largest skylake 1000000 (unfold oa_exponent_to_period_ns in omega arith)

time_to_oa_exponent_unreachable_iff_example :
    (time_to_oa_exponent skylake 1000000 ≡ none) ↔ (oa_exponent_to_period_ns skylake 29 ≤ 1000000)
time_to_oa_exponent_unreachable_iff_example = time_to_oa_exponent_unreachable_iff skylake 1000000

-- A stream with all three fields.
abbrev all_fields : Configuration
all_fields = record { oa_reports = true; cpu_timestamps = true; gpu_timestamps = true }

abbrev sample : PerfRecord
sample = record { kind = 1; size = 280; words = replicate 70 3 }

record_field_layout_example :
    (header_size ≤ 24) × (24 + 256 ≤ record_max_size all_fields) × Apart 24 256 16 8
record_field_layout_example =
    record_field_layout all_fields oa_report cpu_timestamp 24 16 (ground arith)
      (unfold record_field in refl) (unfold record_field in refl)

record_reads_fault_iff_example :
    ((record_timestamp all_fields sample ≡ none)
      ↔ ((sample.kind ≡ 1) × (all_fields.oa_reports ≡ false)))
    × ((record_reason all_fields skylake sample ≡ none)
        ↔ ((sample.kind ≡ 1) × (all_fields.oa_reports ≡ false) × (8 ≤ skylake.gen)))
record_reads_fault_iff_example = record_reads_fault_iff all_fields skylake sample

-- A report written for a timer, on context 3.
abbrev timer_report : Report
timer_report = (2 ^ 19 + 2 ^ 16) ∷ 7 ∷ 3 ∷ []

timer_reason : report_get_reason skylake timer_report ≡ "timer"
unfolding report_get_reason
timer_reason = refl

timer_ctx_id : report_get_ctx_id skylake timer_report ≡ 3
unfolding report_get_ctx_id
timer_ctx_id = refl
