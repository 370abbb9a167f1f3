-- ===== src/Server/Fake/Accumulated.antt =====
-- What the client reads from fake reports: their records and what it accumulates.
use native.Mathlib.Nat.{add-mul, mul-le-mul}
use gputop.Base.{
  ℕ, ◌+◌, ◌-◌, ◌*◌, ◌/◌, ◌%◌, ◌^◌, ◌≤◌, ◌<◌, ◌≡◌, refl, ap, ap₂, ◌∙◌, arith, true, false, some,
  List, [], ◌∷◌, ◌++◌, All, length, replicate, ltb, ◌==◌, if◌then◌else◌, u32, u64, All-replicate,
  inl,
}
use gputop.Oa.Device.{DevInfo, a32u40_a4u32_b8_c8}
use gputop.Oa.Report.{
  IsReport, report_get_reason, report_get_ctx_id, report_ctx_is_valid, report_get_timestamp,
  invalid_ctx_id,
}
use gputop.Oa.Record.{Configuration, record_field, record_report, record_timestamp, record_max_size}
use gputop.Oa.Accumulator.{accumulate_deltas}
use gputop.Oa.Accumulator.Slots.{slot, a32u40_value, a32u40_size, growth}
use gputop.Oa.Accumulator.Formats.{accumulate_deltas_slots, counter_value, counter_size}
use gputop.Server.Fake.{FakeStream, fake_report, fake_record, fake_next, report_of}
use gputop.Server.Fake.Due.{IsFake}
use gputop.Server.Fake.Words.{fake_value}

All-append : (P : ℕ → Type 0) (xs ys : List ℕ) → All P xs → All P ys → All P (xs ++ ys)
All-append P [] ys h k = k
All-append P (x ∷ xs) ys h k = (h.0, All-append P xs ys h.1 k)

fake_report-IsReport :
    (n_eus ctx timestamp clocks : ℕ)
    → ctx < 2 ^ 32
    → timestamp < 2 ^ 32
    → clocks < 2 ^ 32
    → IsReport (fake_report n_eus ctx timestamp clocks)
unfolding fake_report
fake_report-IsReport n_eus ctx timestamp clocks c t l =
    let P : ℕ → Type 0 = λ w. w < 2 ^ 32 in
    let low = u32 (u64 (clocks * n_eus)) in
    let high = u64 (clocks * n_eus) / 2 ^ 32 % 256 * 0x0101_0101 in
    let last = u32 (clocks * 2) in
    let lasts : All P (replicate 16 last) = All-replicate P 16 last (omega arith) in
    let highs =
      All-append P (replicate 8 high) (replicate 16 last) (All-replicate P 8 high (omega arith))
        lasts in
    let lows =
      All-append P (replicate 4 low) (replicate 8 high ++ replicate 16 last)
        (All-replicate P 4 low (omega arith)) highs in
    (
      refl,
      (
        omega arith,
        (
          t,
          (
            c,
            (
              l,
              All-append P (replicate 32 low)
                  (replicate 4 low ++ (replicate 8 high ++ replicate 16 last))
                  (All-replicate P 32 low (omega arith)) lows,
            ),
          ),
        ),
      ),
    )

-- The streams that the server opens in fake mode have the reports only.
abbrev pub reports_only : Configuration
reports_only = record { oa_reports = true; cpu_timestamps = false; gpu_timestamps = false }

-- A client of a Broadwell reads a fake record as the server made it: the report and its timestamp,
-- from the timer, in no context, in a record of the size of its configuration.
pub fake_record-read :
    (devinfo : DevInfo) (n_eus ctx timestamp clocks : ℕ)
    → devinfo.gen ≡ 8
    → let report = fake_report n_eus ctx timestamp clocks in
      (record_report reports_only (fake_record report) ≡ some report)
      × (record_timestamp reports_only (fake_record report) ≡ some timestamp)
      × (report_get_reason devinfo report ≡ "timer")
      × (report_get_ctx_id devinfo report ≡ invalid_ctx_id)
      × ((fake_record report).size ≡ record_max_size reports_only)
unfolding record_report record_field record_timestamp record_max_size report_get_reason
    report_get_ctx_id report_ctx_is_valid report_get_timestamp fake_report
fake_record-read devinfo n_eus ctx timestamp clocks g = rw g (refl, refl, refl, refl, refl)

-- What a period adds to the slots of the client.
abbrev pub fake_growth : ℕ → ℕ → ℕ → ℕ
fake_growth n_eus period j =
    if j == 0
    then period / 80
    else if j == 1
    then period / 2
    else if ltb j 34
    then period / 2 * n_eus
    else if ltb j 38
    then u32 (period / 2 * n_eus)
    else if ltb j 54
    then u32 (period / 2 * 2)
    else 0

-- The counters of a report, from its clocks and their product.
abbrev values : ℕ → ℕ → ℕ → ℕ → ℕ
values j t c a =
    if j == 0
    then t
    else if j == 1
    then c
    else if ltb j 34
    then a
    else if ltb j 38
    then u32 a
    else if ltb j 54
    then u32 (c * 2)
    else 0

-- The counters of two reports, with `a` and `b` for the products.
grow :
    (j t q c h a b : ℕ)
    → t < 2 ^ 32
    → q < 2 ^ 32
    → h + c < 2 ^ 32
    → b + a < 2 ^ 40
    → growth
        (a32u40_size j)
        (if j == 0
          then t
          else if j == 1
          then c
          else if ltb j 34
          then a
          else if ltb j 38
          then u32 a
          else if ltb j 54
          then u32 (c * 2)
          else 0)
        (if j == 0
          then u32 (q + t)
          else if j == 1
          then h + c
          else if ltb j 34
          then b + a
          else if ltb j 38
          then u32 (b + a)
          else if ltb j 54
          then u32 ((h + c) * 2)
          else 0)
      ≡ (if j == 0
          then q
          else if j == 1
          then h
          else if ltb j 34
          then b
          else if ltb j 38
          then u32 b
          else if ltb j 54
          then u32 (h * 2)
          else 0)
unfolding a32u40_size
grow j t q c h a b ht hq hc hb = ground arith

growths :
    (n_eus ctx ctx' j : ℕ) (s : FakeStream)
    → IsFake s
    → s.period < 2 ^ 32
    → s.period / 2 + s.prev_clocks < 2 ^ 32
    → n_eus ≤ 256
    → growth
        (a32u40_size j)
        (a32u40_value (report_of n_eus ctx s) j)
        (a32u40_value (report_of n_eus ctx' (fake_next s)) j)
      ≡ fake_growth n_eus s.period j
unfolding a32u40_size fake_next
growths n_eus ctx ctx' j s v p no_wrap eus =
    let h = s.period / 2 in
    let c = s.prev_clocks in
    let next : u32 (h + c) ≡ h + c = omega (arith, no_wrap) in
    let split : (h + c) * n_eus ≡ h * n_eus + c * n_eus = add-mul h c n_eus in
    let bound : (h + c) * n_eus ≤ (2 ^ 32 - 1) * 256 =
      mul-le-mul {n₂ = 2 ^ 32 - 1} (omega (arith, no_wrap)) eus in
    let v0 = fake_value n_eus ctx s.prev_timestamp c j (omega (arith, split, bound)) in
    let v1 =
      fake_value n_eus ctx' (u32 (s.period / 80 + s.prev_timestamp)) (u32 (h + c)) j
        (rw next (omega (arith, bound))) in
    ap₂ (growth (a32u40_size j)) v0 (
      v1
      ∙ ap₂ (values j (u32 (s.period / 80 + s.prev_timestamp))) next
          (ap (λ x. x * n_eus) next ∙ split))
    ∙ grow j s.prev_timestamp (s.period / 80) c h (c * n_eus) (h * n_eus) v.timestamp
        (omega (arith, p)) no_wrap (omega (arith, split, bound))

-- The accumulation of two successive reports of a fake stream, on a device with at most 256 units
-- and while the clock does not wrap, is exact: a period adds its ticks to the timestamp and the
-- clock, and to each counter what its units counted in that time.
pub fake_reports-accumulated :
    (n_eus ctx ctx' : ℕ) (s : FakeStream) (d : List ℕ)
    → IsFake s
    → s.period < 2 ^ 32
    → s.period / 2 + s.prev_clocks < 2 ^ 32
    → n_eus ≤ 256
    → ctx < 2 ^ 32
    → ctx' < 2 ^ 32
    → length d ≡ 62
    → ((j : ℕ) → slot d j < 2 ^ 64)
    → (d' : List ℕ) × (accumulate_deltas a32u40_a4u32_b8_c8
          (report_of n_eus ctx s)
          (report_of n_eus ctx' (fake_next s))
          d
        ≡ some d')
      × ((j : ℕ) → slot d' j ≡ u64 (slot d j + fake_growth n_eus s.period j))
unfolding fake_next counter_value counter_size
fake_reports-accumulated n_eus ctx ctx' s d v p no_wrap eus x x' size fits =
    let r0 = fake_report-IsReport n_eus ctx s.prev_timestamp s.prev_clocks x v.timestamp v.clocks in
    let s1 = fake_next s in
    let r1 =
      fake_report-IsReport n_eus ctx' s1.prev_timestamp s1.prev_clocks x' (omega arith)
        (omega arith) in
    let a =
      accumulate_deltas_slots a32u40_a4u32_b8_c8 (report_of n_eus ctx s) (report_of n_eus ctx' s1) d
        (inl refl) r0 r1 size fits in
    (
      a.0,
      a.1,
      λ j. a.3 j ∙ ap (λ g. u64 (slot d j + g)) (growths n_eus ctx ctx' j s v p no_wrap eus),
    )
