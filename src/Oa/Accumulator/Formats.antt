-- ===== src/Oa/Accumulator/Formats.antt =====
-- The two cases of the `switch` of `gputop_cc_oa_accumulate_reports`, slot by slot.
use gputop.Base.{
  ℕ, ◌+◌, ◌-◌, ◌^◌, ◌<◌, ◌≡◌, ◌⊎◌, inl, inr, some, List, arith, u64, sub32, sub64, refl, ◌∙◌,
  length, ltb, ◌==◌, if◌then◌else◌, length-set,
}
use gputop.Oa.Device.{a45_b8_c8, a32u40_a4u32_b8_c8}
use gputop.Oa.Report.{Report, IsReport, word}
use gputop.Oa.Accumulator.{
  add_at, accumulate_uint32, accumulate_uint40, value40, accumulate_a32u40, accumulate_a45,
  accumulate_deltas,
}
use gputop.Oa.Accumulator.Slots.{
  slot, a32u40_value, a32u40_size, a45_value, a45_size, growth, add_run, length-add_run,
  slot-add_run, slot-add_at, word-lt, value40_lem, growth40,
}

module _ (r0 r1 : Report) where
  abbrev words : ℕ → ℕ → ℕ
  words base i = sub32 (word r1 (base + i)) (word r0 (base + i))

  abbrev a_counters : ℕ → ℕ
  a_counters i =
      if ltb (value40 i r1) (value40 i r0)
      then sub64 (2 ^ 40 + value40 i r1) (value40 i r0)
      else sub64 (value40 i r1) (value40 i r0)

  -- The deltas after each phase of the case.
  abbrev phase1 : List ℕ → List ℕ
  phase1 d = add_at d 0 (sub32 (word r1 1) (word r0 1))

  abbrev phase2 : List ℕ → List ℕ
  phase2 d = add_at (phase1 d) 1 (sub32 (word r1 3) (word r0 3))

  abbrev phase3 : List ℕ → List ℕ
  phase3 d = add_run a_counters 2 32 0 (phase2 d)

  abbrev phase4 : List ℕ → List ℕ
  phase4 d = add_run (words 36) 34 4 0 (phase3 d)

  abbrev phase5 : List ℕ → List ℕ
  phase5 d = add_run (words 48) 38 16 0 (phase4 d)

  accumulate_a32u40-phases : (d : List ℕ) → accumulate_a32u40 r0 r1 d ≡ phase5 d
  unfolding accumulate_a32u40 accumulate_uint32 accumulate_uint40
  accumulate_a32u40-phases d = refl

  module _ (d : List ℕ) (size : length d ≡ 62) where
    length2 : length (phase2 d) ≡ 62
    length2 = length-set (phase1 d) 1 _ ∙ (length-set d 0 _ ∙ size)

    length3 : length (phase3 d) ≡ 62
    length3 = length-add_run a_counters 2 32 0 (phase2 d) ∙ length2

    length4 : length (phase4 d) ≡ 62
    length4 = length-add_run (words 36) 34 4 0 (phase3 d) ∙ length3

    length5 : length (phase5 d) ≡ 62
    length5 = length-add_run (words 48) 38 16 0 (phase4 d) ∙ length4

    slot2 :
        (j : ℕ)
        → slot (phase2 d) j ≡ (
            if j == 0
            then u64 (slot d j + sub32 (word r1 1) (word r0 1))
            else if j == 1
            then u64 (slot d j + sub32 (word r1 3) (word r0 3))
            else slot d j)
    slot2 j = ground (
      arith,
      slot-add_at (phase1 d) 1 (sub32 (word r1 3) (word r0 3)) j (rw length-set (omega arith)),
      slot-add_at d 0 (sub32 (word r1 1) (word r0 1)) j (omega arith),
    )

    slot5 :
        (j : ℕ)
        → slot (phase5 d) j ≡ (
            if ltb j 2
            then slot (phase2 d) j
            else if ltb j 34
            then u64 (slot d j + a_counters (j - 2))
            else if ltb j 38
            then u64 (slot d j + words 36 (j - 34))
            else if ltb j 54
            then u64 (slot d j + words 48 (j - 38))
            else slot d j)
    slot5 j = ground (
      arith,
      slot-add_run (words 48) 38 16 0 (phase4 d) j (rw length4 (omega arith)),
      slot-add_run (words 36) 34 4 0 (phase3 d) j (rw length3 (omega arith)),
      slot-add_run a_counters 2 32 0 (phase2 d) j (rw length2 (omega arith)),
      slot2 j,
    )

  pub slot-accumulate_a32u40 :
      (d : List ℕ) (j : ℕ)
      → IsReport r0
      → IsReport r1
      → length d ≡ 62
      → slot d j < 2 ^ 64
      → slot (accumulate_a32u40 r0 r1 d) j
        ≡ u64 (slot d j + growth (a32u40_size j) (a32u40_value r0 j) (a32u40_value r1 j))
  unfolding a32u40_value a32u40_size
  slot-accumulate_a32u40 d j v0 v1 size fits =
      rw (accumulate_a32u40-phases d, slot5 d size j, slot2 d size j)
        (ground (
          arith,
          value40_lem r0 (j - 2) v0,
          value40_lem r1 (j - 2) v1,
          growth40 (value40 (j - 2) r0) (value40 (j - 2) r1),
          word-lt r0 1 v0,
          word-lt r1 1 v1,
        ))

  pub length-accumulate_a32u40 :
      (d : List ℕ) → length d ≡ 62 → length (accumulate_a32u40 r0 r1 d) ≡ 62
  length-accumulate_a32u40 d size = rw (accumulate_a32u40-phases d) (length5 d size)

  abbrev run45 : List ℕ → List ℕ
  run45 d = add_run (words 3) 1 61 0 (phase1 d)

  accumulate_a45-run : (d : List ℕ) → accumulate_a45 r0 r1 d ≡ run45 d
  unfolding accumulate_a45 accumulate_uint32
  accumulate_a45-run d = refl

  pub length-accumulate_a45 : (d : List ℕ) → length d ≡ 62 → length (accumulate_a45 r0 r1 d) ≡ 62
  length-accumulate_a45 d size =
      rw (accumulate_a45-run d)
        (length-add_run (words 3) 1 61 0 (phase1 d) ∙ (length-set d 0 _ ∙ size))

  pub slot-accumulate_a45 :
      (d : List ℕ) (j : ℕ)
      → IsReport r0
      → IsReport r1
      → length d ≡ 62
      → slot d j < 2 ^ 64
      → slot (accumulate_a45 r0 r1 d) j
        ≡ u64 (slot d j + growth (a45_size j) (a45_value r0 j) (a45_value r1 j))
  unfolding a45_value a45_size
  slot-accumulate_a45 d j v0 v1 size fits = rw (accumulate_a45-run d) (
      ground (
        arith,
        slot-add_run (words 3) 1 61 0 (phase1 d) j (rw length-set (omega arith)),
        slot-add_at d 0 (sub32 (word r1 1) (word r0 1)) j (omega arith),
      ))

-- The layout of a format that the source supports.
unfoldable pub counter_value : ℕ → Report → ℕ → ℕ
counter_value format r j = if format == a32u40_a4u32_b8_c8 then a32u40_value r j else a45_value r j

unfoldable pub counter_size : ℕ → ℕ → ℕ
counter_size format j = if format == a32u40_a4u32_b8_c8 then a32u40_size j else a45_size j

abbrev pub IsFormat : ℕ → Type 0
IsFormat format = (format ≡ a32u40_a4u32_b8_c8) ⊎ (format ≡ a45_b8_c8)

-- On a supported format the `switch` fails no assertion, and adds to each of the 62 slots the
-- growth of the counter that the hardware's layout puts there.
pub accumulate_deltas_slots :
    (format : ℕ) (r0 r1 : Report) (d : List ℕ)
    → IsFormat format
    → IsReport r0
    → IsReport r1
    → length d ≡ 62
    → ((j : ℕ) → slot d j < 2 ^ 64)
    → (d' : List ℕ) × (accumulate_deltas format r0 r1 d ≡ some d')
      × (length d' ≡ 62)
      × ((j : ℕ)
          → slot d' j
            ≡ u64 (
                slot d j
                + growth
                    (counter_size format j)
                    (counter_value format r0 j)
                    (counter_value format r1 j)))
unfolding accumulate_deltas counter_value counter_size
accumulate_deltas_slots format r0 r1 d (inl e) v0 v1 size fits = rw e (
  accumulate_a32u40 r0 r1 d,
  refl,
  length-accumulate_a32u40 r0 r1 d size,
  λ j. slot-accumulate_a32u40 r0 r1 d j v0 v1 size (fits j),
)
accumulate_deltas_slots format r0 r1 d (inr e) v0 v1 size fits = rw e (
  accumulate_a45 r0 r1 d,
  refl,
  length-accumulate_a45 r0 r1 d size,
  λ j. slot-accumulate_a45 r0 r1 d j v0 v1 size (fits j),
)
