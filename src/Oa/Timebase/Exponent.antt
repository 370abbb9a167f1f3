-- ===== src/Oa/Timebase/Exponent.antt =====
-- Which exponent `gputop_time_to_oa_exponent` chooses.
use mathlib.Core.Bool.{false≢true}
use native.Mathlib.Decide.{dec_le}
use native.Mathlib.Nat.{le_refl, le_trans, pow-le-pow_right, pow-suc}
use native.Mathlib.Numerals.{add-one}
use mathlib.Core.Path.{subst}
use gputop.Base.{
  ℕ, zero, suc, ◌+◌, ◌-◌, ◌*◌, ◌/◌, ◌^◌, ◌≤◌, ◌<◌, ◌≡◌, ◌⊎◌, inl, inr, none, some, arith,
  Bool-cases, ltb, u64, refl, ap, div_mono, false, ltb→lt, lt→ltb, le→ltb, sym, ◌↔◌,
}
use gputop.Oa.Device.{DevInfo}
use gputop.Oa.Timebase.{oa_exponent_to_period_ns, find_exponent, time_to_oa_exponent, ns_per_s}

module _ (devinfo : DevInfo) where
  abbrev period : ℕ → ℕ
  period e = oa_exponent_to_period_ns devinfo e

  abbrev freq : ℕ
  freq = devinfo.timestamp_frequency

  small : (e : ℕ) → e < 31 → 2 ^ e ≤ 2 ^ 30
  small e h = pow-le-pow_right {n = 2} (omega arith) {i = e} {j = 30} (omega arith)

  no_wrap : (x : ℕ) → x ≤ 2 ^ 30 → u64 (u64 (2 * x) * ns_per_s) ≡ 2 * x * ns_per_s
  no_wrap x h = omega arith

  -- For an exponent of the loop no product wraps.
  period_lem : (e : ℕ) → e < 31 → period e ≡ 2 * 2 ^ e * ns_per_s / freq
  unfolding oa_exponent_to_period_ns
  period_lem e h = ap (λ t. t / freq) (no_wrap (2 ^ e) (small e h))

  period_mono : (e : ℕ) → e < 30 → period e ≤ period (suc e)
  period_mono e h =
      rw (period_lem e (omega arith), period_lem (suc e) (omega arith), pow-suc)
        (div_mono (2 * 2 ^ e * ns_per_s) (2 * (2 ^ e * 2) * ns_per_s) freq (omega arith))

  -- What is known when the loop is at exponent `i`: none below it was too large.
  abbrev Passed : ℕ → ℕ → Type 0
  Passed p zero = Unit
  Passed p (suc i) = period i ≤ p

  abbrev Largest : ℕ → ℕ → Type 0
  Largest p e = ((e ≡ 0) ⊎ (period e ≤ p)) × (p < period (suc e))

  found : (p i : ℕ) → i < 30 → Passed p i → p < period i → Largest p (i - 1)
  found p zero h passed lt = (inl refl, omega (arith, period_mono 0 (omega arith)))
  found p (suc i) h passed lt = let e : suc i - 1 ≡ i = omega arith in rw e (inr passed, lt)

  passes : (p i : ℕ) → ltb p (period i) ≡ false → Passed p (i + 1)
  passes p i h = rw add-one (ground arith)

  find_exponent-Largest :
      (p n i e : ℕ) → i + n ≤ 30 → Passed p i → find_exponent devinfo p n i ≡ some e → Largest p e
  unfolding find_exponent
  find_exponent-Largest p zero i e h passed eq = cc
  find_exponent-Largest p (suc n) i e h passed eq = elim (Bool-cases (ltb p (period i))) [
    | inl stop ↦
        let same : i - 1 ≡ e = ground arith in
        subst (Largest p) same (found p i (omega arith) passed (ltb→lt _ _ stop))
    | inr more ↦ find_exponent-Largest p n (i + 1) e (omega arith) (passes p i more) (rw more at eq)
  ]

  period-le-last : (n i : ℕ) → i + n ≡ 29 → period i ≤ period 29
  period-le-last zero i h = let e : i ≡ 29 = omega arith in rw e (le_refl _)
  period-le-last (suc n) i h =
      le_trans (period_mono i (omega arith)) (period-le-last n (suc i) (omega arith))

  find_exponent_total :
      (p n i : ℕ)
      → i + n ≡ 30
      → i ≤ 29
      → p < period 29
      → (e : ℕ) × (find_exponent devinfo p n i ≡ some e)
  unfolding find_exponent
  find_exponent_total p zero i h in_range lt = absurd (omega arith)
  find_exponent_total p (suc n) i h in_range lt = elim (Bool-cases (ltb p (period i))) [
    | inl stop ↦ (i - 1, rw stop)
    | inr more ↦ rw more (
        find_exponent_total p n (i + 1) (omega arith)
          (elim (dec_le 29 i) [
            | yes last ↦
                let e : i ≡ 29 = omega arith in
                absurd (false≢true (sym (rw (e, lt→ltb p (period 29) lt) at more)))
            | no earlier ↦ omega arith
          ])
          lt)
  ]

  find_exponent-none : (p n i : ℕ) → i + n ≡ 30 → period 29 ≤ p → find_exponent devinfo p n i ≡ none
  unfolding find_exponent
  find_exponent-none p zero i h le = refl
  find_exponent-none p (suc n) i h le =
      rw (le→ltb p (period i) (le_trans (period-le-last (29 - i) i (omega arith)) le))
        (find_exponent-none p n (i + 1) (omega arith) le)

-- For a period below that of exponent 29, `gputop_time_to_oa_exponent` returns an exponent whose
-- own period does not exceed the given one (unless it is 0) and whose successor's does.
pub time_to_oa_exponent_largest :
    (devinfo : DevInfo) (period_ns : ℕ)
    → period_ns < oa_exponent_to_period_ns devinfo 29
    → (e : ℕ) × (time_to_oa_exponent devinfo period_ns ≡ some e)
      × ((e ≡ 0) ⊎ (oa_exponent_to_period_ns devinfo e ≤ period_ns))
      × (period_ns < oa_exponent_to_period_ns devinfo (suc e))
unfolding time_to_oa_exponent
time_to_oa_exponent_largest devinfo p lt =
    let (e, eq) = find_exponent_total devinfo p 30 0 refl (omega arith) lt in
    let (low, high) = find_exponent-Largest devinfo p 30 0 e (omega arith) tt eq in
    (e, eq, low, high)

-- `gputop_time_to_oa_exponent` runs into its `unreachable` exactly when the period is at least
-- that of exponent 29.
pub time_to_oa_exponent_unreachable_iff :
    (devinfo : DevInfo) (period_ns : ℕ)
    → (time_to_oa_exponent devinfo period_ns ≡ none)
      ↔ (oa_exponent_to_period_ns devinfo 29 ≤ period_ns)
unfolding time_to_oa_exponent
time_to_oa_exponent_unreachable_iff devinfo p = (
  λ eq. elim (dec_le (oa_exponent_to_period_ns devinfo 29) p) [
    | yes le ↦ le
    | no lt ↦
        let (e, found) = find_exponent_total devinfo p 30 0 refl (omega arith) (omega arith) in cc
  ],
  find_exponent-none devinfo p 30 0 refl,
)
