-- ===== src/Server/Fake.antt =====
-- The reports that the server makes up without a device, gputop_perf_fake_read of
-- server/gputop-perf.c. The time is an argument, and so is what the buffer held where no field is
-- written, the context of a report.
pub mod Due
pub mod Words
pub mod Accumulated
mod Examples
use gputop.Base.{
  ℕ, zero, suc, ◌+◌, ◌*◌, ◌/◌, ◌%◌, ◌^◌, Bool, Option, none, some, List, ◌==◌, ◌>>=◌, [], ◌∷◌, ◌++◌,
  ltb, if◌then◌else◌, replicate, u32, u64, sub64,
}
use gputop.Oa.Report.{Report}
use gputop.Oa.Record.{PerfRecord, record_sample}

-- The fields of `struct gputop_perf_stream` for fake data.
pub record FakeStream : Type 0 where
  pub start_time : ℕ
  pub gen_so_far : ℕ
  pub prev_clocks : ℕ
  pub period : ℕ
  pub prev_timestamp : ℕ

-- The fields that `gputop_open_i915_perf_oa_stream` sets; the three calls of `gputop_get_time`
-- are one time here.
unfoldable pub fake_open : ℕ → ℕ → FakeStream
fake_open now period_exponent = record {
  start_time = now;
  gen_so_far = 0;
  prev_clocks = u32 now;
  period = u32 (80 * (2 * 2 ^ period_exponent));
  prev_timestamp = u32 now;
}

-- The records that are due, as the source subtracts: on 64 bits. `none` is the division by a period
-- of 0, which the exponents from 27 on have.
unfoldable pub fake_due : ℕ → FakeStream → Option ℕ
fake_due now s =
    if s.period == 0 then none else some (sub64 (sub64 now s.start_time / s.period) s.gen_so_far)

-- `i915_perf_stream_data_pending` in fake mode.
unfoldable pub fake_data_pending : ℕ → FakeStream → Option Bool
fake_data_pending now s = fake_due now s >>= λ due. some (ltb 0 due)

-- `sizeof(struct report_layout)`.
abbrev pub report_layout_size : ℕ
report_layout_size = 264

-- `struct report_layout` after its header: each loop fills an array with one value, and four equal
-- bytes of `counter_40_msb` are a word.
unfoldable pub fake_report : ℕ → ℕ → ℕ → ℕ → Report
fake_report n_eus context_id timestamp elapsed_clocks =
    let counter = u64 (elapsed_clocks * n_eus) in
    let counter_msb = counter / 2 ^ 32 % 256 in
    let counter_lsb = u32 counter in
    2 ^ 19
    ∷ timestamp
    ∷ context_id
    ∷ elapsed_clocks
    ∷ (replicate 32 counter_lsb
        ++ (replicate 4 counter_lsb
            ++ (replicate 8 (counter_msb * 0x0101_0101)
                ++ replicate 16 (u32 (elapsed_clocks * 2)))))

-- A record: its header of two words and the report.
abbrev pub fake_record : Report → PerfRecord
fake_record report = record {
  kind = record_sample;
  size = report_layout_size;
  words = record_sample ∷ report_layout_size * 2 ^ 16 ∷ report;
}

-- The stream after a report.
unfoldable pub fake_next : FakeStream → FakeStream
fake_next s = record s {
  gen_so_far = u32 (s.gen_so_far + 1);
  prev_clocks = u32 (s.period / 2 + s.prev_clocks);
  prev_timestamp = u32 (s.period / 80 + s.prev_timestamp);
}

-- The report of a round of the loop, from the stream after it.
abbrev pub report_of : ℕ → ℕ → FakeStream → Report
report_of n_eus context_id s = fake_report n_eus context_id s.prev_timestamp s.prev_clocks

-- The loop, with `n` rounds to go; `held i` is what the buffer holds as the context of report `i`.
unfoldable pub fake_records : ℕ → (ℕ → ℕ) → ℕ → ℕ → FakeStream → List PerfRecord × FakeStream
fake_records n_eus held zero i s = ([], s)
fake_records n_eus held (suc n) i s =
    let s1 = fake_next s in
    let rest = fake_records n_eus held n (i + 1) s1 in
    (fake_record (report_of n_eus (held i) s1) ∷ rest.0, rest.1)

-- `gputop_perf_fake_read` into a buffer of `buf_length` bytes.
unfoldable pub fake_read : ℕ → (ℕ → ℕ) → ℕ → ℕ → FakeStream → Option (List PerfRecord × FakeStream)
fake_read n_eus held now buf_length s = fake_due now s >>= λ due.
    let room = buf_length / report_layout_size in
    some (fake_records n_eus held (u32 (if ltb due room then due else room)) 0 s)
