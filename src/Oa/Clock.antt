-- ===== src/Oa/Clock.antt =====
-- `struct gputop_u32_clock`: a 64-bit nanosecond clock that follows a 32-bit tick counter.
pub mod Drift
use gputop.Base.{ℕ, ◌+◌, Option, none, some, u64, sub32}
use gputop.Oa.Device.{DevInfo}
use gputop.Oa.Timebase.{timebase_scale_ns}

-- `devinfo` is `none` where the source's pointer is NULL: the clock is not started.
pub record U32Clock : Type 0 where
  pub devinfo : Option DevInfo
  pub start : ℕ
  pub timestamp : ℕ
  pub last_u32 : ℕ
  pub clock_count : ℕ

abbrev pub stopped_clock : U32Clock
stopped_clock = record { devinfo = none; start = 0; timestamp = 0; last_u32 = 0; clock_count = 0 }

-- `gputop_u32_clock_init`.
unfoldable pub clock_init : DevInfo → ℕ → U32Clock
clock_init devinfo u32_start = record {
  devinfo = some devinfo;
  start = timebase_scale_ns devinfo u32_start;
  timestamp = timebase_scale_ns devinfo u32_start;
  last_u32 = u32_start;
  clock_count = 0;
}

-- `gputop_u32_clock_get_time`.
abbrev pub clock_get_time : U32Clock → ℕ
clock_get_time clock = clock.timestamp

abbrev pub ticked : DevInfo → U32Clock → ℕ → ℕ → U32Clock
ticked devinfo clock u32_start_timestamp u32_end_timestamp =
    let delta = sub32 u32_end_timestamp clock.last_u32 in
    record clock {
      timestamp = u64 (clock.timestamp + timebase_scale_ns devinfo delta);
      last_u32 = u32_end_timestamp;
      clock_count = u64 (clock.clock_count + sub32 u32_end_timestamp u32_start_timestamp);
    }

-- `gputop_u32_clock_progress`; `none` is the read through a NULL `devinfo`.
unfoldable pub clock_progress : U32Clock → ℕ → ℕ → Option U32Clock
clock_progress clock u32_start_timestamp u32_end_timestamp = elim clock.devinfo [
  | none ↦ none
  | some devinfo ↦ some (ticked devinfo clock u32_start_timestamp u32_end_timestamp)
]
