-- ===== src/Server/CpuStats.antt =====
-- The statistics of the processors, server/gputop-perf.c, server/gputop-cpu.h and
-- server/gputop-server.c: they are logged by a timer and flushed to the client.
-- What gputop_cpu_read_stats reads and the number of processors are arguments.
pub mod Sets
pub mod Logged
mod Examples
use gputop.Base.{
  ℕ, zero, suc, ◌+◌, ◌*◌, ◌/◌, Bool, true, false, Option, none, some, List, [], ◌∷◌, ◌++◌, map, ltb,
  leb, ◌==◌, ◌&&◌, if◌then◌else◌, not, length, take, drop, replicate, max, u32, ◌>>=◌,
}

-- `struct cpu_stat`.
pub record CpuStat : Type 0 where
  pub timestamp : ℕ
  pub cpu : ℕ
  pub user : ℕ
  pub nice : ℕ
  pub system : ℕ
  pub idle : ℕ
  pub iowait : ℕ
  pub irq : ℕ
  pub softirq : ℕ
  pub steal : ℕ
  pub guest : ℕ
  pub guest_nice : ℕ

-- The message `CpuStats`.
pub record PbCpuStats : Type 0 where
  pub timestamp : ℕ
  pub user : ℕ
  pub nice : ℕ
  pub system : ℕ
  pub idle : ℕ
  pub iowait : ℕ
  pub irq : ℕ
  pub softirq : ℕ
  pub steal : ℕ
  pub guest : ℕ
  pub guest_nice : ℕ

-- The message `CpuStatsSet`; memory that was never written is `none`.
pub record CpuStatsSet : Type 0 where
  pub id : ℕ
  pub cpus : List (Option PbCpuStats)

-- The part of `struct gputop_perf_stream` for processor statistics.
pub record CpuStream : Type 0 where
  pub id : ℕ
  pub overwrite : Bool
  pub stats_buf : List (Option CpuStat)
  pub stats_buf_len : ℕ
  pub stats_buf_pos : ℕ
  pub stats_buf_full : Bool

-- The counts are cut to the 32 bits of the message.
abbrev pub pb_cpu_stats : CpuStat → PbCpuStats
pb_cpu_stats stat = record {
  timestamp = stat.timestamp;
  user = u32 stat.user;
  nice = u32 stat.nice;
  system = u32 stat.system;
  idle = u32 stat.idle;
  iowait = u32 stat.iowait;
  irq = u32 stat.irq;
  softirq = u32 stat.softirq;
  steal = u32 stat.steal;
  guest = u32 stat.guest;
  guest_nice = u32 stat.guest_nice;
}

-- An entry of the buffer in a message.
abbrev pub pb_entry : Option CpuStat → Option PbCpuStats
pb_entry none = none
pb_entry (some stat) = some (pb_cpu_stats stat)

-- `gputop_perf_open_cpu_stats`; `none` is the division by a period of 0.
unfoldable pub open_cpu_stats : ℕ → ℕ → Bool → ℕ → Option CpuStream
open_cpu_stats n_cpus id overwrite sample_period_ms =
    let len = max 10 (1000 / sample_period_ms) in
    if sample_period_ms == 0
    then none
    else some (record {
      id = id;
      overwrite = overwrite;
      stats_buf = replicate (len * n_cpus) none;
      stats_buf_len = len;
      stats_buf_pos = 0;
      stats_buf_full = false;
    })

-- `gputop_cpu_read_stats` into the buffer; `none` is a write out of bounds.
unfoldable pub store_stats : List CpuStat → CpuStream → Option CpuStream
store_stats stats s =
    let pos = s.stats_buf_pos in
    let end = pos + length stats in
    if leb end (length s.stats_buf)
    then some (record s {
      stats_buf = take pos s.stats_buf ++ (map some stats ++ drop end s.stats_buf);
      stats_buf_pos = end;
    })
    else none

-- The second test of `log_cpu_stats_cb`.
unfoldable pub mark_full : CpuStream → CpuStream
mark_full s =
    if leb s.stats_buf_len s.stats_buf_pos
    then record s {
      stats_buf_full = true;
      stats_buf_pos = if s.overwrite then 0 else s.stats_buf_pos;
    }
    else s

-- `log_cpu_stats_cb`, with the statistics that are read.
unfoldable pub log_cpu_stats : List CpuStat → CpuStream → Option CpuStream
log_cpu_stats stats s =
    (if ltb s.stats_buf_pos s.stats_buf_len then store_stats stats s else some s) >>= λ s1.
    some (mark_full s1)

-- A message of the statistics at a position; `none` is a read out of bounds.
unfoldable pub stats_set : ℕ → CpuStream → ℕ → Option CpuStatsSet
stats_set n_cpus s pos =
    if leb (pos + n_cpus) (length s.stats_buf)
    then some (record { id = s.id; cpus = map pb_entry (take n_cpus (drop pos s.stats_buf)) })
    else none

-- The loop of `flush_cpu_stats`.
unfoldable pub send_sets : ℕ → CpuStream → ℕ → ℕ → Option (List CpuStatsSet)
send_sets n_cpus s zero pos = some []
send_sets n_cpus s (suc n) pos = stats_set n_cpus s pos >>= λ set.
    send_sets n_cpus s n (if leb s.stats_buf_len (pos + n_cpus) then 0 else pos + n_cpus)
    >>= λ sets. some (set ∷ sets)

-- `flush_cpu_stats`: the messages that are sent, and the stream.
unfoldable pub flush_cpu_stats : ℕ → CpuStream → Option (List CpuStatsSet × CpuStream)
flush_cpu_stats n_cpus s =
    let n = (if s.stats_buf_full then s.stats_buf_len else s.stats_buf_pos) / n_cpus in
    let pos = if s.stats_buf_full then s.stats_buf_pos else 0 in
    if (s.stats_buf_pos == 0) && not s.stats_buf_full
    then some ([], s)
    else (send_sets n_cpus s n pos >>= λ sets.
        some (sets, record s { stats_buf_pos = 0; stats_buf_full = false }))

-- The timer fires once for each of the statistics read.
unfoldable pub log_all : List (List CpuStat) → CpuStream → Option CpuStream
log_all [] s = some s
log_all (stats ∷ rest) s = log_cpu_stats stats s >>= log_all rest
