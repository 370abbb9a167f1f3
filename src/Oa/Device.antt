-- ===== src/Oa/Device.antt =====
-- The structures of lib/gputop-oa-metrics.h that the counter code reads.
use gputop.Base.{ℕ, Bool, List, String}

-- `struct gputop_devtopology`; the masks are arrays of bytes.
pub record DevTopology : Type 0 where
  pub max_slices : ℕ
  pub max_subslices : ℕ
  pub max_eus_per_subslice : ℕ
  pub n_threads_per_eu : ℕ
  pub slices_mask : List ℕ
  pub subslices_mask : List ℕ
  pub eus_mask : List ℕ
  pub engines : List ℕ

-- `struct gputop_devinfo`.
pub record DevInfo : Type 0 where
  pub devname : String
  pub prettyname : String
  pub devid : ℕ
  pub gen : ℕ
  pub revision : ℕ
  pub timestamp_frequency : ℕ
  pub gt_min_freq : ℕ
  pub gt_max_freq : ℕ
  pub query_mode : Bool
  pub has_dynamic_configs : Bool
  pub topology : DevTopology
  pub n_eus : ℕ
  pub n_eu_slices : ℕ
  pub n_eu_sub_slices : ℕ
  pub subslice_mask : ℕ
  pub slice_mask : ℕ
  pub eu_threads_count : ℕ

-- `struct gputop_metric_set`, without the counters and the register programs.
pub record MetricSet : Type 0 where
  pub name : String
  pub symbol_name : String
  pub hw_config_guid : String
  pub perf_oa_metrics_set : ℕ
  pub perf_oa_format : ℕ

-- `I915_OA_FORMAT_A45_B8_C8` and `I915_OA_FORMAT_A32u40_A4u32_B8_C8` of the i915 interface.
abbrev pub a45_b8_c8 : ℕ
a45_b8_c8 = 5

abbrev pub a32u40_a4u32_b8_c8 : ℕ
a32u40_a4u32_b8_c8 = 10
