-- ===== src/Oa/Accumulator/Totals.antt =====
-- A stream of reports: the accumulated deltas are the true growth of the counters.
use gputop.Base.{
  ℕ, ◌+◌, ◌%◌, ◌<◌, ◌≡◌, ◌≢◌, Option, none, some, List, arith, u64, refl, ap, ◌∙◌, [], ◌∷◌, map,
}
use gputop.Oa.Report.{Report, IsReport, word, byte_at}
use gputop.Oa.Accumulator.{Accumulator, accumulate_reports}
use gputop.Oa.Accumulator.Slots.{
  slot, growth, a32u40_value, a32u40_size, a45_value, a45_size, word-lt,
}
use gputop.Oa.Accumulator.Formats.{counter_value, counter_size}
use gputop.Oa.Accumulator.Invariant.{IsValid, Accumulated, accumulate_reports-Accumulated}

-- The calls that a client makes for a report and those that follow it.
pub accumulate_all : Accumulator → Report → List Report → Option Accumulator
accumulate_all a last [] = some a
accumulate_all a last (r ∷ rs) = elim (accumulate_reports a last r) [
  | none ↦ none
  | some (_, a') ↦ accumulate_all a' r rs
]

-- A report with what each counter gained since the report before it.
pub record Sample : Type 0 where
  pub report : Report
  pub gain : ℕ → ℕ

-- The report holds the counters of the one before it, advanced by the gains within their sizes.
-- No counter gains its whole size at once.
pub record Follows (format : ℕ) (last : Report) (s : Sample) : Type 0 where
  pub whole : IsReport s.report
  pub stamped : word s.report 1 ≢ 0
  pub small : (j : ℕ) → s.gain j < counter_size format j
  pub counts :
      (j : ℕ)
      → counter_value format s.report j
        ≡ (counter_value format last j + s.gain j) % counter_size format j

abbrev pub IsStream : ℕ → Report → List Sample → Type 0
IsStream format last [] = Unit
IsStream format last (s ∷ ss) = Follows format last s × IsStream format s.report ss

pub total_gain : ℕ → List Sample → ℕ
total_gain j [] = 0
total_gain j (s ∷ ss) = s.gain j + total_gain j ss

abbrev reports : List Sample → List Report
reports ss = map (λ s. s.report) ss

growth_lem : (m v g : ℕ) → v < m → g < m → growth m v ((v + g) % m) ≡ g
growth_lem m v g h k = grind arith

counter_value-lt :
    (format : ℕ) (r : Report) (j : ℕ)
    → IsReport r
    → counter_value format r j < counter_size format j
unfolding counter_value counter_size a32u40_value a32u40_size a45_value a45_size byte_at
counter_value-lt format r j v =
    ground (arith, word-lt r 1 v, word-lt r 3 v, word-lt r (j + 2) v, word-lt r (j + 10) v)

grown-gain :
    (format : ℕ) (a a' : Accumulator) (last : Report) (s : Sample) (j : ℕ)
    → a.metric_set.perf_oa_format ≡ format
    → IsReport last
    → Follows format last s
    → Accumulated a last s.report a'
    → slot a'.deltas j ≡ u64 (slot a.deltas j + s.gain j)
grown-gain format a a' last s j e v f acc =
    acc.counted j
    ∙ rw e (
        ap (λ t. u64 (slot a.deltas j + t))
          (rw (f.counts j) (
            growth_lem (counter_size format j) (counter_value format last j) (s.gain j)
              (counter_value-lt format last j v) (f.small j))))

-- Over any stream of whole, stamped reports in which no counter gains its full size between two
-- neighbours, the accumulation fails nowhere, and each of the 62 deltas ends as its start plus
-- everything the counter gained, modulo 2^64, however often the counter itself wrapped.
pub accumulate_all-total_gain :
    (format : ℕ) (ss : List Sample) (a : Accumulator) (last : Report)
    → a.metric_set.perf_oa_format ≡ format
    → IsValid a
    → IsReport last
    → word last 1 ≢ 0
    → IsStream format last ss
    → (a' : Accumulator) × (accumulate_all a last (reports ss) ≡ some a')
      × IsValid a'
      × ((j : ℕ) → slot a'.deltas j ≡ u64 (slot a.deltas j + total_gain j ss))
unfolding accumulate_all total_gain
accumulate_all-total_gain format [] a last e v w t st = (a, refl, v, λ j. omega (arith, v.fits j))
accumulate_all-total_gain format (s ∷ ss) a last e v w t st =
    let step = accumulate_reports-Accumulated a last s.report v w st.0.whole (t, st.0.stamped) in
    let rest =
      accumulate_all-total_gain format ss step.0 s.report
        (ap (λ m. m.perf_oa_format) step.2.same_set ∙ e) step.2.valid st.0.whole st.0.stamped
        st.1 in
    (
      rest.0,
      rw (step.1, accumulate_all) rest.1,
      rest.2,
      λ j. omega (arith, rest.3 j, grown-gain format a step.0 last s j e w st.0 step.2),
    )

-- Any whole and stamped report follows any whole one, by the growth of every counter.
pub Follows-growth :
    (format : ℕ) (r0 r1 : Report)
    → IsReport r0
    → IsReport r1
    → word r1 1 ≢ 0
    → Follows format r0 (record {
      report = r1;
      gain = λ j.
          growth (counter_size format j) (counter_value format r0 j) (counter_value format r1 j);
    })
Follows-growth format r0 r1 v0 v1 t = record {
  whole = v1;
  stamped = t;
  small = λ j.
      (back (counter_size format j) (counter_value format r0 j) (counter_value format r1 j)
        (counter_value-lt format r0 j v0) (counter_value-lt format r1 j v1)).0;
  counts = λ j.
      (back (counter_size format j) (counter_value format r0 j) (counter_value format r1 j)
        (counter_value-lt format r0 j v0) (counter_value-lt format r1 j v1)).1;
}
  where
    back : (m x y : ℕ) → x < m → y < m → (growth m x y < m) × (y ≡ (x + growth m x y) % m)
    back m x y h k = grind arith
