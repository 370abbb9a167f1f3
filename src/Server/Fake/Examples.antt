-- ===== src/Server/Fake/Examples.antt =====
-- A fake stream of a Broadwell with 24 units, a few periods after it was opened.
use gputop.Base.{
  ℕ, ◌+◌, ◌^◌, ◌<◌, ◌≡◌, refl, arith, none, some, Ensures, List, u64, replicate, All-get_or,
  All-replicate,
}
use gputop.Oa.Device.{DevInfo}
use gputop.Oa.Examples.{skylake}
use gputop.Oa.Report.{report_get_reason, report_get_ctx_id, invalid_ctx_id}
use gputop.Oa.Record.{record_report, record_timestamp, record_max_size}
use gputop.Oa.Accumulator.{accumulate_deltas}
use gputop.Oa.Accumulator.Slots.{slot}
use gputop.Server.Fake.{
  FakeStream, fake_open, fake_due, fake_report, fake_record, fake_next, fake_read, report_of,
}
use gputop.Server.Fake.Due.{IsFake, IsDue, fake_read-IsDue}
use gputop.Server.Fake.Accumulated.{
  reports_only, fake_growth, fake_record-read, fake_reports-accumulated,
}

abbrev broadwell : DevInfo
broadwell = record skylake {
  devname = "bdwgt2";
  prettyname = "Broadwell GT2";
  devid = 0x1616;
  gen = 8;
  timestamp_frequency = 12500000;
}

-- A period of 5120 nanoseconds.
abbrev stream : FakeStream
stream = record {
  start_time = 1000;
  gen_so_far = 0;
  prev_clocks = 1000;
  period = 5120;
  prev_timestamp = 1000;
}

stream_example : fake_open 1000 5 ≡ stream
unfolding fake_open
stream_example = refl

stream-IsFake : IsFake stream
stream-IsFake = record { gen = omega arith; clocks = omega arith; timestamp = omega arith }

-- Three periods later, with room for two reports.
fake_read-IsDue_example : Ensures (fake_read 24 (λ i. 0) 17000 600 stream) (IsDue 17000 600 stream)
fake_read-IsDue_example =
    fake_read-IsDue 24 (λ i. 0) 17000 600 stream stream-IsFake (omega arith) (omega arith)
      (omega arith)

-- An exponent whose period is 0 on 32 bits.
no_period : fake_read 24 (λ i. 0) 17000 600 (fake_open 1000 28) ≡ none
unfolding fake_read fake_due fake_open
no_period = refl

fake_record-read_example :
    (record_report reports_only (fake_record (fake_report 24 0 77 990))
      ≡ some (fake_report 24 0 77 990))
    × (record_timestamp reports_only (fake_record (fake_report 24 0 77 990)) ≡ some 77)
    × (report_get_reason broadwell (fake_report 24 0 77 990) ≡ "timer")
    × (report_get_ctx_id broadwell (fake_report 24 0 77 990) ≡ invalid_ctx_id)
    × (264 ≡ record_max_size reports_only)
fake_record-read_example = fake_record-read broadwell 24 0 77 990 refl

fake_reports-accumulated_example :
    (d' : List ℕ) × (accumulate_deltas 10
        (report_of 24 0 stream)
        (report_of 24 0 (fake_next stream))
        (replicate 62 0)
      ≡ some d')
    × ((j : ℕ) → slot d' j ≡ u64 (slot (replicate 62 0) j + fake_growth 24 5120 j))
fake_reports-accumulated_example =
    fake_reports-accumulated 24 0 0 stream (replicate 62 0) stream-IsFake (omega arith)
      (omega arith) (omega arith) (omega arith) (omega arith) refl
      (λ j.
        All-get_or (λ x. x < 2 ^ 64) (replicate 62 0) j 0 (omega arith)
          (All-replicate (λ x. x < 2 ^ 64) 62 0 (omega arith)))
