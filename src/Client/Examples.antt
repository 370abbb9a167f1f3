-- ===== src/Client/Examples.antt =====
-- The theorems on the device at concrete inputs, and tests.
use gputop.Base.{
  some, ◌>>=◌, [], ℕ, zero, suc, ◌≤◌, ◌≡◌, true, false, none, ◌∷◌, ◌++◌, replicate, get_or, arith,
  refl, counted,
}
use gputop.Oa.Device.{MetricSet, DevInfo, DevTopology}
use gputop.Oa.Examples.{skylake}
use gputop.Metrics.{GenDeviceInfo}
use gputop.Server.Platform.{pb_devinfo}
use gputop.Client.Topology.{bytes_for, popcount, bits_per_slice, count_eus, build_subslice_mask}
use gputop.Client.Topology.Subslices.{
  packed, low_bits, build_subslice_mask_lem, build_subslice_mask_lost,
}
use gputop.Client.CpuStats.{CpuStats, stored, add_cpu_stats}
use gputop.Client.CpuStats.Window.{IsCounted, last_of, add_cpu_stats_window}
use gputop.Client.Streams.{
  lowered_period, Context, stop_sampling, start_sampling, open_i915_perf_stream, close_tracepoints,
  close_all, close_stream, close_i915_perf_stream, open_tracepoints, open_cpus, open_stream,
}
use gputop.Client.Streams.Restart.{start_sampling-Owned}
use gputop.Oa.Timebase.{time_to_oa_exponent, find_exponent, oa_exponent_to_period_ns}
use mathlib.Core.Bool.{true≢false}
use gputop.Client.Streams.Owned.{count, tracepoints_count, Owned}
use gputop.Client.Platform.{gen_metrics_for, register_platform_metrics, fit}
use gputop.Client.Platform.Announced.{Registered, register_platform_metrics-pb_devinfo}

-- Two slices of three subslices of eight execution units.
abbrev two_slices : DevTopology
two_slices = record {
  max_slices = 2;
  max_subslices = 3;
  max_eus_per_subslice = 8;
  n_threads_per_eu = 7;
  slices_mask = 3 ∷ replicate 3 0;
  subslices_mask = 7 ∷ 7 ∷ replicate 14 0;
  eus_mask = replicate 6 255 ++ replicate 250 0;
  engines = replicate 5 0;
}

abbrev gt3 : DevInfo
gt3 = record skylake { topology = two_slices }

count_eus_test : count_eus two_slices ≡ 48
unfolding count_eus counted bytes_for popcount
count_eus_test = refl

-- The three subslices of the second slice are missing.
subslice_mask_test : build_subslice_mask two_slices 3 ≡ 7
unfolding build_subslice_mask counted bytes_for
subslice_mask_test = refl

build_subslice_mask_lem_example : build_subslice_mask two_slices 3 ≡ packed two_slices 3 3 0 2
build_subslice_mask_lem_example =
    build_subslice_mask_lem two_slices 3 (omega arith) (omega arith) (omega arith)

zeros : (n i : ℕ) → get_or {A = ℕ} (replicate n 0) i 0 ≡ 0
zeros zero i = refl
zeros (suc n) zero = refl
zeros (suc n) (suc i) = zeros n i

above : (i : ℕ) → 2 ≤ i → get_or two_slices.subslices_mask i 0 ≡ 0
above zero h = absurd (omega arith)
above (suc zero) h = absurd (omega arith)
above (suc (suc i)) h = zeros 14 i

build_subslice_mask_lost_example : build_subslice_mask two_slices 3 ≡ low_bits 3 7
unfolding bytes_for
build_subslice_mask_lost_example =
    build_subslice_mask_lost two_slices 3 (omega arith) (omega arith) (omega arith) (omega arith)
      (omega arith) above

abbrev elkhartlake : GenDeviceInfo
elkhartlake = record {
  gen = 11;
  gt = 1;
  is_haswell = false;
  is_broadwell = false;
  is_cherryview = false;
  is_skylake = false;
  is_broxton = false;
  is_kabylake = false;
  is_geminilake = false;
  is_coffeelake = false;
  is_cannonlake = false;
  is_elkhartlake = true;
}

elkhartlake_test : gen_metrics_for "EHL" none ≡ none
unfolding gen_metrics_for
elkhartlake_test = refl

register_platform_metrics-pb_devinfo_example :
    Registered gt3
      (gen_metrics_for (fit 20 "sklgt2") none)
      (register_platform_metrics skylake none (pb_devinfo gt3))
unfolding bits_per_slice
register_platform_metrics-pb_devinfo_example =
    register_platform_metrics-pb_devinfo skylake gt3 none 3 refl refl refl refl

abbrev two_stats : CpuStats ℕ
two_stats = record { cpu_stats = 10 ∷ 11 ∷ []; n_cpu_stats = 2; stream = 1 }

add_cpu_stats_window_example :
    (after : CpuStats ℕ) × (add_cpu_stats ℕ 2 two_stats 1 12 ≡ stored after)
    × (after.cpu_stats ≡ last_of ℕ 2 (10 ∷ 11 ∷ 12 ∷ []))
    × IsCounted ℕ after
    × (after.stream ≡ 1)
add_cpu_stats_window_example =
    add_cpu_stats_window ℕ 2 two_stats 12 refl (λ e. absurd (omega (arith, e))) (omega arith)

-- A client that samples one tracepoint on two processors.
abbrev sampling : Context
sampling = record {
  devinfo = skylake;
  metric_set = none;
  n_cpus = 2;
  is_sampling = true;
  oa_aggregation_period_ns = 60000000;
  oa_sampling_period_ns = 1000000;
  cpu_stats_sampling_period_ms = 100;
  stream_id = 5;
  streams = 4 ∷ 3 ∷ 2 ∷ 1 ∷ [];
  oa_stream = 2;
  cpu_stats_stream = 1;
  perf_tracepoints = record { event_id = 7; streams = 4 ∷ 3 ∷ [] } ∷ [];
  sent = [];
}

sampling-Owned : Owned sampling
unfolding count tracepoints_count
sampling-Owned = record { next = omega arith; owners = λ id h. omega arith }

-- Without a metric set, a restart opens one stream for each processor.
start_sampling_test : (start_sampling sampling >>= λ c. some c.streams) ≡ some (6 ∷ 5 ∷ 1 ∷ [])
unfolding start_sampling stop_sampling open_i915_perf_stream close_tracepoints close_all
    close_stream close_i915_perf_stream open_tracepoints open_cpus open_stream
start_sampling_test = refl

abbrev render_basic : MetricSet
render_basic = record {
  name = "Render Metrics Basic";
  symbol_name = "RenderBasic";
  hw_config_guid = "b541bd57-0e0f-4154-b4c0-5858010a2bf7";
  perf_oa_metrics_set = 1;
  perf_oa_format = 10;
}

abbrev with_metrics : Context
with_metrics = record sampling { metric_set = some render_basic }

with_metrics-Owned : Owned with_metrics
unfolding count tracepoints_count
with_metrics-Owned = record { next = omega arith; owners = λ id h. omega arith }

start_sampling-Owned_example :
    (c : Context) × (start_sampling with_metrics ≡ some c)
    × Owned c
    × (c.oa_stream ≡ 5)
    × (c.is_sampling ≡ true)
unfolding lowered_period time_to_oa_exponent find_exponent oa_exponent_to_period_ns
start_sampling-Owned_example =
    start_sampling-Owned with_metrics render_basic 1000000 12 with_metrics-Owned
      (λ e. absurd (true≢false e)) refl refl refl
