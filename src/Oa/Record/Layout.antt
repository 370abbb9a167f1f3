-- ===== src/Oa/Record/Layout.antt =====
-- Where the fields of a record lie.
use gputop.Base.{ℕ, ◌+◌, ◌≤◌, ◌≡◌, ◌≢◌, ◌⊎◌, ◌↔◌, Bool, false, none, some, arith, refl}
use gputop.Oa.Device.{DevInfo}
use gputop.Oa.Record.{
  Configuration, Field, oa_report, cpu_timestamp, gpu_timestamp, PerfRecord, header_size,
  record_sample, record_max_size, record_field, record_timestamp, record_reason,
}

abbrev pub has_field : Configuration → Field → Bool
has_field config oa_report = config.oa_reports
has_field config cpu_timestamp = config.cpu_timestamps
has_field config gpu_timestamp = config.gpu_timestamps

abbrev pub field_size : Field → ℕ
field_size oa_report = 256
field_size cpu_timestamp = 8
field_size gpu_timestamp = 8

-- A field is found exactly if the configuration has it.
pub record_field-has_field_iff :
    (config : Configuration) (f : Field)
    → (record_field config f ≡ none) ↔ (has_field config f ≡ false)
unfolding record_field
record_field-has_field_iff config oa_report = ground arith
record_field-has_field_iff config cpu_timestamp = ground arith
record_field-has_field_iff config gpu_timestamp = ground arith

-- Every field lies behind the header and inside the largest size of a record.
field_inside :
    (config : Configuration) (f : Field) (o : ℕ)
    → record_field config f ≡ some o
    → (header_size ≤ o) × (o + field_size f ≤ record_max_size config)
unfolding record_field record_max_size
field_inside config oa_report o h = ground arith
field_inside config cpu_timestamp o h = ground arith
field_inside config gpu_timestamp o h = ground arith

-- Fields that begin at different places do not overlap.
abbrev pub Apart : ℕ → ℕ → ℕ → ℕ → Type 0
Apart o m p n = (o + m ≤ p) ⊎ (p + n ≤ o)

fields-Apart :
    (config : Configuration) (f g : Field) (o p : ℕ)
    → f ≢ g
    → record_field config f ≡ some o
    → record_field config g ≡ some p
    → Apart o (field_size f) p (field_size g)
unfolding record_field
fields-Apart config oa_report oa_report o p ne h k = absurd (ne refl)
fields-Apart config oa_report cpu_timestamp o p ne h k = ground arith
fields-Apart config oa_report gpu_timestamp o p ne h k = ground arith
fields-Apart config cpu_timestamp oa_report o p ne h k = ground arith
fields-Apart config cpu_timestamp cpu_timestamp o p ne h k = absurd (ne refl)
fields-Apart config cpu_timestamp gpu_timestamp o p ne h k = ground arith
fields-Apart config gpu_timestamp oa_report o p ne h k = ground arith
fields-Apart config gpu_timestamp cpu_timestamp o p ne h k = ground arith
fields-Apart config gpu_timestamp gpu_timestamp o p ne h k = absurd (ne refl)

-- Two different fields that a configuration has lie behind the header, inside the largest size of
-- a record, and do not overlap.
pub record_field_layout :
    (config : Configuration) (f g : Field) (o p : ℕ)
    → f ≢ g
    → record_field config f ≡ some o
    → record_field config g ≡ some p
    → (header_size ≤ o)
      × (o + field_size f ≤ record_max_size config)
      × Apart o (field_size f) p (field_size g)
record_field_layout config f g o p ne h k =
    let inside = field_inside config f o h in
    (inside.0, inside.1, fields-Apart config f g o p ne h k)

-- Reading the timestamp of a record goes through a NULL report exactly for a sample of a stream
-- without OA reports. So does reading its reason, on devices of generation 8 and later; on earlier
-- ones that reads no report.
pub record_reads_fault_iff :
    (config : Configuration) (devinfo : DevInfo) (r : PerfRecord)
    → ((record_timestamp config r ≡ none)
        ↔ ((r.kind ≡ record_sample) × (config.oa_reports ≡ false)))
      × ((record_reason config devinfo r ≡ none)
          ↔ ((r.kind ≡ record_sample) × (config.oa_reports ≡ false) × (8 ≤ devinfo.gen)))
unfolding record_timestamp record_reason
record_reads_fault_iff config devinfo r = ground arith
