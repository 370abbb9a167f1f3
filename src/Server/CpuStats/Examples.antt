-- ===== src/Server/CpuStats/Examples.antt =====
-- Statistics of two processors that are logged and flushed.
use gputop.Base.{
  ℕ, ◌+◌, ◌*◌, ◌≡◌, refl, arith, false, Option, none, some, List, [], ◌∷◌, map, length, replicate,
  ◌>>=◌,
}
use gputop.Server.CpuStats.{
  CpuStat, CpuStatsSet, CpuStream, open_cpu_stats, store_stats, mark_full, log_cpu_stats, stats_set,
  send_sets, flush_cpu_stats, log_all,
}
use gputop.Server.CpuStats.Logged.{message, flush_cpu_stats-logged}

abbrev stat : ℕ → CpuStat
stat t = record {
  timestamp = t;
  cpu = 0;
  user = t + 1;
  nice = 0;
  system = 3;
  idle = 7;
  iowait = 0;
  irq = 0;
  softirq = 0;
  steal = 0;
  guest = 0;
  guest_nice = 0;
}

abbrev stats : ℕ → List CpuStat
stats t = stat t ∷ stat (t + 1) ∷ []

-- The stream that a period of 100 milliseconds opens.
abbrev opened : ℕ → CpuStream
opened n_cpus = record {
  id = 4;
  overwrite = false;
  stats_buf = replicate (10 * n_cpus) none;
  stats_buf_len = 10;
  stats_buf_pos = 0;
  stats_buf_full = false;
}

open_example : open_cpu_stats 2 4 false 100 ≡ some (opened 2)
unfolding open_cpu_stats
open_example = refl

-- A period of 0 is a division by zero.
no_period : open_cpu_stats 2 4 false 0 ≡ none
unfolding open_cpu_stats
no_period = refl

-- The times of the first entries of the messages, where the memory was written.
abbrev first_times : List CpuStatsSet → List (Option ℕ)
first_times [] = []
first_times (set ∷ sets) = elim set.cpus [
  | [] ↦ none ∷ first_times sets
  | none ∷ rest ↦ none ∷ first_times sets
  | some s ∷ rest ↦ some s.timestamp ∷ first_times sets
]

abbrev times : Option (List CpuStatsSet × CpuStream) → Option (List (Option ℕ))
times none = none
times (some r) = some (first_times r.0)

-- A buffer that is full and not overwritten: the first message is memory that was never written,
-- and the statistics logged last are lost.
full_buffer :
    times (
      log_all (stats 10 ∷ stats 20 ∷ stats 30 ∷ stats 40 ∷ stats 50 ∷ []) (opened 2)
      >>= flush_cpu_stats 2)
    ≡ some (none ∷ some 10 ∷ some 20 ∷ some 30 ∷ some 40 ∷ [])
unfolding log_all log_cpu_stats store_stats mark_full flush_cpu_stats send_sets stats_set
full_buffer = refl

-- With one processor, it is read out of bounds.
full_buffer_single :
    times (
      log_all
        ((stat 1 ∷ [])
          ∷ (stat 2 ∷ [])
          ∷ (stat 3 ∷ [])
          ∷ (stat 4 ∷ [])
          ∷ (stat 5 ∷ [])
          ∷ (stat 6 ∷ [])
          ∷ (stat 7 ∷ [])
          ∷ (stat 8 ∷ [])
          ∷ (stat 9 ∷ [])
          ∷ (stat 10 ∷ [])
          ∷ [])
        (opened 1)
      >>= flush_cpu_stats 1)
    ≡ none
unfolding log_all log_cpu_stats store_stats mark_full flush_cpu_stats send_sets stats_set
full_buffer_single = refl

flush_cpu_stats-logged_example :
    (s' : CpuStream) × ((log_all (stats 10 ∷ stats 20 ∷ []) (opened 2) >>= flush_cpu_stats 2)
      ≡ some (map (message 4) (stats 10 ∷ stats 20 ∷ []), s'))
    × (s'.stats_buf_pos ≡ 0)
    × (s'.stats_buf_full ≡ false)
    × (length s'.stats_buf ≡ 20)
flush_cpu_stats-logged_example =
    flush_cpu_stats-logged 2 (stats 10 ∷ stats 20 ∷ []) (opened 2) (omega arith) refl refl refl
      (refl, (refl, tt)) (omega arith)
