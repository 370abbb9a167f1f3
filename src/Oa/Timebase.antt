-- ===== src/Oa/Timebase.antt =====
-- Conversions between timestamp ticks, OA exponents and nanoseconds.
-- A 64-bit product wraps where the source's does. A frequency of 0, on which the source divides
-- by zero, gives 0.
pub mod Exponent
use gputop.Base.{ℕ, zero, suc, ◌+◌, ◌-◌, ◌*◌, ◌/◌, ◌^◌, Option, none, some, ltb, if◌then◌else◌, u64}
use gputop.Oa.Device.{DevInfo}

abbrev pub ns_per_s : ℕ
ns_per_s = 1000000000

-- `gputop_time_scale_timebase`.
pub time_scale_timebase : DevInfo → ℕ → ℕ
time_scale_timebase devinfo ns_time = u64 (ns_time * devinfo.timestamp_frequency) / ns_per_s

-- `gputop_timebase_scale_ns`.
unfoldable pub timebase_scale_ns : DevInfo → ℕ → ℕ
timebase_scale_ns devinfo u32_time = u64 (u32_time * ns_per_s) / devinfo.timestamp_frequency

-- `gputop_oa_exponent_to_period_ns`.
unfoldable pub oa_exponent_to_period_ns : DevInfo → ℕ → ℕ
oa_exponent_to_period_ns devinfo exponent =
    u64 (u64 (2 * 2 ^ exponent) * ns_per_s) / devinfo.timestamp_frequency

-- The loop of `gputop_time_to_oa_exponent` at exponent `i` with `n` rounds left. `none` is the
-- `unreachable` after the loop; `i - 1` stops at 0 as `MAX2(0, i - 1)` does.
unfoldable pub find_exponent : DevInfo → ℕ → ℕ → ℕ → Option ℕ
find_exponent devinfo period_ns zero i = none
find_exponent devinfo period_ns (suc n) i =
    let rest = find_exponent devinfo period_ns n (i + 1) in
    if ltb period_ns (oa_exponent_to_period_ns devinfo i) then some (i - 1) else rest

-- `gputop_time_to_oa_exponent`.
unfoldable pub time_to_oa_exponent : DevInfo → ℕ → Option ℕ
unfolding find_exponent
time_to_oa_exponent devinfo period_ns = find_exponent devinfo period_ns 30 0
