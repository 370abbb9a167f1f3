-- ===== src/Oa/Accumulator/Slots.antt =====
-- Where each counter of a report is accumulated, slot by slot.
use native.Mathlib.Decide.{ℕ_discrete, dec_lt}
use gputop.Base.{
  ℕ, zero, suc, ◌+◌, ◌-◌, ◌*◌, ◌%◌, ◌^◌, ◌≤◌, ◌<◌, ◌≡◌, ◌⊎◌, inl, inr, List, ◌&&◌, arith, u64,
  sub64, refl, ap, ◌∙◌, length, All-get_or, ltb, leb, ◌==◌, if◌then◌else◌, get_or, counted,
  length-set, get_or-set_self, get_or-set_ne, bit_or_high,
}
use gputop.Oa.Report.{Report, IsReport, word, byte_at}
use gputop.Oa.Accumulator.{add_at, value40}

abbrev pub slot : List ℕ → ℕ → ℕ
slot d j = get_or d j 0

-- The hardware's layout: what slot `j` counts in a report, and the size of that counter.
-- Slots without a counter have value 0 and size 1.
unfoldable pub a32u40_value : Report → ℕ → ℕ
a32u40_value r j =
    if j == 0
    then word r 1
    else if j == 1
    then word r 3
    else if ltb j 34
    then word r (j + 2) + byte_at r (158 + j) * 2 ^ 32
    else if ltb j 38
    then word r (j + 2)
    else if ltb j 54
    then word r (j + 10)
    else 0

unfoldable pub a32u40_size : ℕ → ℕ
a32u40_size j =
    if ltb j 2 then 2 ^ 32 else if ltb j 34 then 2 ^ 40 else if ltb j 54 then 2 ^ 32 else 1

unfoldable pub a45_value : Report → ℕ → ℕ
a45_value r j = if j == 0 then word r 1 else if ltb j 62 then word r (j + 2) else 0

unfoldable pub a45_size : ℕ → ℕ
a45_size j = if ltb j 62 then 2 ^ 32 else 1

-- The growth of a counter of size `m` from `v0` to `v1`, across one wrap at most.
abbrev pub growth : ℕ → ℕ → ℕ → ℕ
growth m v0 v1 = (v1 + m - v0) % m

-- A run of slots: `for (i = i0; i < i0 + n; i++) deltas[k + i] += f i`.
module _ (f : ℕ → ℕ) (k : ℕ) where
  abbrev pub add_run : ℕ → ℕ → List ℕ → List ℕ
  add_run n i d = counted n i (λ i d. add_at d (k + i) (f i)) d

  pub length-add_run : (n i : ℕ) (d : List ℕ) → length (add_run n i d) ≡ length d
  unfolding counted
  length-add_run zero i d = refl
  length-add_run (suc n) i d =
      length-add_run n (i + 1) (add_at d (k + i) (f i)) ∙ length-set d (k + i) _

  slot-add_run_out :
      (n i : ℕ) (d : List ℕ) (j : ℕ)
      → ((j < k + i) ⊎ (k + i + n ≤ j))
      → slot (add_run n i d) j ≡ slot d j
  unfolding counted
  slot-add_run_out zero i d j out = refl
  slot-add_run_out (suc n) i d j out =
      slot-add_run_out n (i + 1) (add_at d (k + i) (f i)) j (omega arith)
      ∙ get_or-set_ne d (k + i) j _ 0 (omega arith)

  slot-add_run_in :
      (n i : ℕ) (d : List ℕ) (j : ℕ)
      → k + i + n ≤ length d
      → k + i ≤ j
      → j < k + i + n
      → slot (add_run n i d) j ≡ u64 (slot d j + f (j - k))
  unfolding counted
  slot-add_run_in zero i d j fits low high = absurd (omega arith)
  slot-add_run_in (suc n) i d j fits low high = elim (ℕ_discrete (k + i) j) [
    | yes e ↦
        slot-add_run_out n (i + 1) (add_at d (k + i) (f i)) j (inl (omega arith))
        ∙ ground (
          arith,
          get_or-set_self d (k + i) (u64 (slot d (k + i) + f i)) 0 (omega arith),
          ap f {x = i} {y = j - k} (omega arith),
        )
    | no ne ↦
        slot-add_run_in n (i + 1) (add_at d (k + i) (f i)) j (rw length-set (omega arith))
          (omega arith) (omega arith)
        ∙ ap (λ t. u64 (t + f (j - k))) (get_or-set_ne d (k + i) j _ 0 ne)
  ]

  pub slot-add_run :
      (n i : ℕ) (d : List ℕ) (j : ℕ)
      → k + i + n ≤ length d
      → slot (add_run n i d) j
        ≡ (if leb (k + i) j && ltb j (k + i + n) then u64 (slot d j + f (j - k)) else slot d j)
  slot-add_run n i d j fits = elim (dec_lt j (k + i)) [
    | yes low ↦ ground (arith, slot-add_run_out n i d j (inl low))
    | no ge ↦ elim (dec_lt j (k + i + n)) [
      | yes lt ↦ ground (arith, slot-add_run_in n i d j fits (omega arith) lt)
      | no high ↦ ground (arith, slot-add_run_out n i d j (inr (omega arith)))
    ]
  ]

pub slot-add_at :
    (d : List ℕ) (k x j : ℕ)
    → k < length d
    → slot (add_at d k x) j ≡ (if j == k then u64 (slot d j + x) else slot d j)
slot-add_at d k x j h = elim (ℕ_discrete k j) [
  | yes e ↦ ground (arith, get_or-set_self d k (u64 (slot d k + x)) 0 h)
  | no ne ↦ ground (arith, get_or-set_ne d k j (u64 (slot d k + x)) 0 ne)
]

pub word-lt : (r : Report) (i : ℕ) → IsReport r → word r i < 2 ^ 32
word-lt r i v = All-get_or (λ w. w < 2 ^ 32) r i 0 (omega arith) v.1

-- The 40 bits of an A counter as a number.
pub value40_lem :
    (r : Report) (a : ℕ)
    → IsReport r
    → (value40 a r ≡ word r (a + 4) + byte_at r (160 + a) * 2 ^ 32) × (value40 a r < 2 ^ 40)
unfolding value40 byte_at
value40_lem r a v =
    let e = bit_or_high 32 (word r (a + 4)) (byte_at r (160 + a)) (word-lt r (a + 4) v) in
    (omega (arith, e), omega (arith, e, word-lt r (a + 4) v))

-- The two branches of `accumulate_uint40` are the growth modulo 2^40.
pub growth40 :
    (v0 v1 : ℕ)
    → v0 < 2 ^ 40
    → v1 < 2 ^ 40
    → (if ltb v1 v0 then sub64 (2 ^ 40 + v1) v0 else sub64 v1 v0) ≡ growth (2 ^ 40) v0 v1
growth40 v0 v1 h k = ground arith
