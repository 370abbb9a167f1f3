-- ===== src/Oa/Record.antt =====
-- Records of an i915 perf stream: their optional fields, lib/gputop-oa-counters.h.
pub mod Layout
use gputop.Base.{
  ℕ, ◌+◌, ◌/◌, Bool, true, false, not, ◌&&◌, Option, none, some, List, String, ◌==◌, ltb,
  if◌then◌else◌, drop,
}
use gputop.Oa.Device.{DevInfo}
use gputop.Oa.Report.{Report, report_get_timestamp, report_get_reason}

-- `struct gputop_i915_perf_configuration`: the fields that the records of a stream have.
pub record Configuration : Type 0 where
  pub oa_reports : Bool
  pub cpu_timestamps : Bool
  pub gpu_timestamps : Bool

-- `enum gputop_i915_perf_field`.
pub data Field : Type 0 where
  oa_report cpu_timestamp gpu_timestamp : Field

-- `struct drm_i915_perf_record_header`, and the record that it heads as 32-bit words, the two
-- words of the header included.
pub record PerfRecord : Type 0 where
  pub kind : ℕ
  pub size : ℕ
  pub words : List ℕ

-- `sizeof(struct drm_i915_perf_record_header)`, and the record types of the i915 interface.
abbrev pub header_size : ℕ
header_size = 8

abbrev pub record_sample : ℕ
record_sample = 1

abbrev pub record_oa_report_lost : ℕ
record_oa_report_lost = 2

abbrev pub record_oa_buffer_lost : ℕ
record_oa_buffer_lost = 3

-- `gputop_i915_perf_record_max_size`.
unfoldable pub record_max_size : Configuration → ℕ
record_max_size config =
    let size0 = if config.oa_reports then header_size + 256 else header_size in
    let size1 = if config.gpu_timestamps then size0 + 8 else size0 in
    if config.cpu_timestamps then size1 + 8 else size1

abbrev is_field : Field → Field → Bool
is_field oa_report oa_report = true
is_field cpu_timestamp cpu_timestamp = true
is_field gpu_timestamp gpu_timestamp = true
is_field _ _ = false

-- `gputop_i915_perf_record_field`: the byte offset of the field from the header, `none` for NULL.
unfoldable pub record_field : Configuration → Field → Option ℕ
record_field config field =
    if config.gpu_timestamps && is_field field gpu_timestamp
    then some header_size
    else let ptr1 = if config.gpu_timestamps then header_size + 8 else header_size in
      if config.cpu_timestamps && is_field field cpu_timestamp
      then some ptr1
      else let ptr2 = if config.cpu_timestamps then ptr1 + 8 else ptr1 in
        if config.oa_reports && is_field field oa_report then some ptr2 else none

-- The report of a record: its words from the field on.
unfoldable pub record_report : Configuration → PerfRecord → Option Report
unfolding record_field
record_report config r = elim (record_field config oa_report) [
  | none ↦ none
  | some offset ↦ some (drop (offset / 4) r.words)
]

-- `gputop_i915_perf_record_timestamp`; `none` is the read through a NULL report.
unfoldable pub record_timestamp : Configuration → PerfRecord → Option ℕ
unfolding record_report
record_timestamp config header =
    if not (header.kind == record_sample) then some 0 else elim (record_report config header) [
      | none ↦ none
      | some report ↦ some (report_get_timestamp report)
    ]

-- `gputop_i915_perf_record_reason`; `none` as above. Before generation 8 the report is not read.
unfoldable pub record_reason : Configuration → DevInfo → PerfRecord → Option String
unfolding record_report
record_reason config devinfo header =
    if header.kind == record_sample
    then elim (record_report config header) [
      | none ↦ if ltb devinfo.gen 8 then some "unknown (gen7)" else none
      | some report ↦ some (report_get_reason devinfo report)
    ]
    else if header.kind == record_oa_report_lost
    then some "report lost"
    else if header.kind == record_oa_buffer_lost
    then some "buffer lost"
    else some "unknown/error"
