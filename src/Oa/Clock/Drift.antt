-- ===== src/Oa/Clock/Drift.antt =====
-- How far the nanosecond clock can fall behind the ticks that it was given.
use gputop.Base.{
  ℕ, suc, ◌+◌, ◌*◌, ◌/◌, ◌%◌, ◌^◌, ◌≤◌, ◌<◌, ◌≡◌, Option, none, some, List, [], ◌∷◌, arith, sub32,
  refl, ap, length, All, div-add_bounds,
}
use gputop.Oa.Device.{DevInfo}
use gputop.Oa.Timebase.{timebase_scale_ns, ns_per_s}
use gputop.Oa.Clock.{U32Clock, clock_progress}

-- The clock after a list of tick increments, each given to `clock_progress` as the 32-bit
-- counter values that the increments lead to.
unfoldable pub advance : U32Clock → List ℕ → Option U32Clock
advance clock [] = some clock
advance clock (d ∷ ds) =
    elim (clock_progress clock clock.last_u32 ((clock.last_u32 + d) % 2 ^ 32)) [
      | none ↦ none
      | some clock' ↦ advance clock' ds
    ]

unfoldable pub total : List ℕ → ℕ
total [] = 0
total (d ∷ ds) = d + total ds

abbrev pub ns_of : DevInfo → ℕ → ℕ
ns_of devinfo ticks = ticks * ns_per_s / devinfo.timestamp_frequency

module _ (devinfo : DevInfo) (freq_pos : 0 < devinfo.timestamp_frequency) where
  -- The clock runs on `devinfo`, and its last tick value is a 32-bit one.
  pub record IsRunning (clock : U32Clock) : Type 0 where
    pub has_devinfo : clock.devinfo ≡ some devinfo
    pub last_fits : clock.last_u32 < 2 ^ 32

  -- What `n` increments of `ticks` in all do to `clock`.
  pub record Advanced (clock : U32Clock) (n ticks : ℕ) (clock' : U32Clock) : Type 0 where
    pub running : IsRunning clock'
    pub not_ahead : clock'.timestamp ≤ clock.timestamp + ns_of devinfo ticks
    pub not_far_behind : clock.timestamp + ns_of devinfo ticks ≤ clock'.timestamp + n
    pub last : clock'.last_u32 ≡ (clock.last_u32 + ticks) % 2 ^ 32
    pub count : clock'.clock_count ≡ (clock.clock_count + ticks) % 2 ^ 64

  abbrev moved : U32Clock → ℕ → U32Clock
  moved clock d = record clock {
    timestamp = clock.timestamp + ns_of devinfo d;
    last_u32 = (clock.last_u32 + d) % 2 ^ 32;
    clock_count = (clock.clock_count + d) % 2 ^ 64;
  }

  difference : (last d : ℕ) → last < 2 ^ 32 → d < 2 ^ 32 → sub32 ((last + d) % 2 ^ 32) last ≡ d
  difference last d h k = omega arith

  scale_exact : (d : ℕ) → d < 2 ^ 32 → timebase_scale_ns devinfo d ≡ ns_of devinfo d
  unfolding timebase_scale_ns
  scale_exact d h = ap (λ t. t / devinfo.timestamp_frequency) (omega arith)

  progress_lem :
      (clock : U32Clock) (d : ℕ)
      → IsRunning clock
      → d < 2 ^ 32
      → clock.timestamp + ns_of devinfo d < 2 ^ 64
      → clock_progress clock clock.last_u32 ((clock.last_u32 + d) % 2 ^ 32) ≡ some (moved clock d)
  unfolding clock_progress
  progress_lem clock d r small fits =
      rw (r.has_devinfo, difference clock.last_u32 d r.last_fits small, scale_exact d small)
        (ground arith)

  moved-IsRunning : (clock : U32Clock) (d : ℕ) → IsRunning clock → IsRunning (moved clock d)
  moved-IsRunning clock d r = record { has_devinfo = r.has_devinfo; last_fits = omega arith }

  sums :
      (d ticks : ℕ)
      → (ns_of devinfo d + ns_of devinfo ticks ≤ ns_of devinfo (d + ticks))
        × (ns_of devinfo (d + ticks) ≤ ns_of devinfo d + ns_of devinfo ticks + 1)
  sums d ticks =
      let e : (d + ticks) * ns_per_s ≡ d * ns_per_s + ticks * ns_per_s = omega arith in
      rw e (div-add_bounds (d * ns_per_s) (ticks * ns_per_s) devinfo.timestamp_frequency freq_pos)

  ns_of_zero : ns_of devinfo 0 ≡ 0
  ns_of_zero = omega arith

  -- One increment, then the rest.
  Advanced-step :
      (clock clock' : U32Clock) (d n ticks : ℕ)
      → Advanced (moved clock d) n ticks clock'
      → Advanced clock (suc n) (d + ticks) clock'
  Advanced-step clock clock' d n ticks a =
      let bounds = sums d ticks in
      record {
        running = a.running;
        not_ahead = omega (arith, a.not_ahead, bounds);
        not_far_behind = omega (arith, a.not_far_behind, bounds);
        last = omega (arith, a.last);
        count = omega (arith, a.count);
      }

  -- A running clock takes any tick increments below 2^32 across the wraps of the counter: it never
  -- runs ahead of the time of all ticks in whole nanoseconds, falls behind it by at most one
  -- nanosecond for each step, ends at the counter's last value and counts every tick, while the time
  -- fits 64 bits.
  pub advance-Advanced :
      (clock : U32Clock) (ds : List ℕ)
      → IsRunning clock
      → All (λ d. d < 2 ^ 32) ds
      → clock.timestamp + ns_of devinfo (total ds) < 2 ^ 64
      → clock.clock_count < 2 ^ 64
      → (clock' : U32Clock) × (advance clock ds ≡ some clock')
        × Advanced clock (length ds) (total ds) clock'
  unfolding advance total
  advance-Advanced clock [] r small fits count = (
    clock,
    refl,
    record {
      running = r;
      not_ahead = omega (arith, ns_of_zero);
      not_far_behind = omega (arith, ns_of_zero);
      last = omega (arith, r.last_fits);
      count = omega arith;
    },
  )
  advance-Advanced clock (d ∷ ds) r small fits count =
      let after_step =
        advance-Advanced (moved clock d) ds (moved-IsRunning clock d r) small.1
          (omega (arith, sums d (total ds))) (omega arith) in
      let step = progress_lem clock d r small.0 (omega (arith, sums d (total ds))) in
      (
        after_step.0,
        rw (step, advance) after_step.1,
        Advanced-step clock after_step.0 d (length ds) (total ds) after_step.2,
      )
