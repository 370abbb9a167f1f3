-- ===== src/Server/Fake/Due.antt =====
-- How many fake reports are made, and when.
use gputop.Base.{
  ℕ, zero, suc, ◌+◌, ◌-◌, ◌*◌, ◌/◌, ◌^◌, ◌≤◌, ◌<◌, ◌≡◌, refl, ap, ◌∙◌, arith, length, min, ltb,
  if◌then◌else◌, u32, sub64, some, List, ◌>>=◌, Ensures, Ensures-of,
}
use native.Mathlib.Nat.{mul-suc}
use gputop.Oa.Record.{PerfRecord}
use gputop.Server.Fake.{
  FakeStream, fake_due, fake_data_pending, report_layout_size, fake_next, fake_records, fake_read,
}

-- The stream after `n` reports.
abbrev pub after : ℕ → FakeStream → FakeStream
after n s = record s {
  gen_so_far = u32 (s.gen_so_far + n);
  prev_clocks = u32 (s.period / 2 * n + s.prev_clocks);
  prev_timestamp = u32 (s.period / 80 * n + s.prev_timestamp);
}

-- The fields that are 32 bits wide.
pub record IsFake (s : FakeStream) : Type 0 where
  pub gen : s.gen_so_far < 2 ^ 32
  pub clocks : s.prev_clocks < 2 ^ 32
  pub timestamp : s.prev_timestamp < 2 ^ 32

fake_next-IsFake : (s : FakeStream) → IsFake (fake_next s)
unfolding fake_next
fake_next-IsFake s = record { gen = omega arith; clocks = omega arith; timestamp = omega arith }

after-suc : (n : ℕ) (s : FakeStream) → after n (fake_next s) ≡ after (suc n) s
unfolding fake_next
after-suc n s =
    let step : (q c : ℕ) → u32 (q * n + u32 (q + c)) ≡ u32 (q * suc n + c) =
      λ q c. let e : q * suc n ≡ q * n + q = mul-suc q n in omega (arith, e) in
    let gen : u32 (u32 (s.gen_so_far + 1) + n) ≡ u32 (s.gen_so_far + suc n) = omega arith in
    λ i. record s {
      gen_so_far = gen i;
      prev_clocks = step (s.period / 2) s.prev_clocks i;
      prev_timestamp = step (s.period / 80) s.prev_timestamp i;
    }

after-zero : (s : FakeStream) → IsFake s → s ≡ after 0 s
after-zero s v =
    let gen : s.gen_so_far ≡ u32 (s.gen_so_far + 0) = omega (arith, v.gen) in
    let none_yet : (q c : ℕ) → c < 2 ^ 32 → c ≡ u32 (q * 0 + c) = λ q c h. omega arith in
    λ i. record s {
      gen_so_far = gen i;
      prev_clocks = none_yet (s.period / 2) s.prev_clocks v.clocks i;
      prev_timestamp = none_yet (s.period / 80) s.prev_timestamp v.timestamp i;
    }

fake_records-after :
    (n_eus : ℕ) (held : ℕ → ℕ) (n i : ℕ) (s : FakeStream)
    → IsFake s
    → (length (fake_records n_eus held n i s).0 ≡ n)
      × ((fake_records n_eus held n i s).1 ≡ after n s)
unfolding fake_records
fake_records-after n_eus held zero i s v = (refl, after-zero s v)
fake_records-after n_eus held (suc n) i s v =
    let r = fake_records-after n_eus held n (i + 1) (fake_next s) (fake_next-IsFake s) in
    (ap suc r.0, r.1 ∙ after-suc n s)

-- The reports that are due in all at a time.
abbrev pub total_due : ℕ → FakeStream → ℕ
total_due now s = sub64 now s.start_time / s.period

-- What one call makes: what is due, as far as the buffer has room.
abbrev pub made : ℕ → ℕ → FakeStream → ℕ
made now buf_length s = min (total_due now s - s.gen_so_far) (buf_length / report_layout_size)

-- What a call gives at a time: the reports, and the stream after it.
pub record IsDue (now len : ℕ) (s : FakeStream) (r : List PerfRecord × FakeStream) : Type 0 where
  pub count : length r.0 ≡ made now len s
  pub inside : report_layout_size * length r.0 ≤ len
  pub state : r.1 ≡ after (made now len s) s
  pub pending :
      fake_data_pending now r.1
      ≡ some (ltb (len / report_layout_size) (total_due now s - s.gen_so_far))

some_period :
    (now : ℕ) (s : FakeStream)
    → 0 < s.period
    → fake_due now s ≡ some (sub64 (total_due now s) s.gen_so_far)
unfolding fake_due
some_period now s h = ground (arith, h)

-- At any time in the first 2^32 periods of a stream, whose period is not 0 and that is not ahead of
-- its time, a call makes the reports that are due, as far as the buffer has room, stays inside the buffer, leaves the counters
-- and the timestamp where that number of periods puts them, and afterwards data are pending exactly
-- when there was not room for all.
pub fake_read-IsDue :
    (n_eus : ℕ) (held : ℕ → ℕ) (now buf_length : ℕ) (s : FakeStream)
    → IsFake s
    → 0 < s.period
    → s.gen_so_far ≤ total_due now s
    → total_due now s < 2 ^ 32
    → Ensures (fake_read n_eus held now buf_length s) (IsDue now buf_length s)
unfolding fake_read fake_data_pending
fake_read-IsDue n_eus held now buf_length s v pos le fits =
    let due = sub64 (total_due now s) s.gen_so_far in
    let room = buf_length / report_layout_size in
    let n = made now buf_length s in
    let count : u32 (if ltb due room then due else room) ≡ n = ground (arith, le, fits) in
    let r = fake_records-after n_eus held (u32 (if ltb due room then due else room)) 0 s v in
    let size = r.0 ∙ count in
    let state = r.1 ∙ ap (λ m. after m s) count in
    Ensures-of _
      (ap
        (λ d. d >>= λ due.
          some (fake_records n_eus held (u32 (if ltb due room then due else room)) 0 s))
        (some_period now s pos))
      (record {
        count = size;
        inside = omega (arith, size);
        state = state;
        pending =
            ap (fake_data_pending now) state
            ∙ ap (λ d. d >>= λ due. some (ltb 0 due)) (some_period now (after n s) pos)
            ∙ ap some (ground (arith, le, fits));
      })
