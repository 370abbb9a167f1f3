-- ===== src/Client/Tracepoints/Examples.antt =====
-- A client that watches one tracepoint.
use text.Mathlib.TextEquality.{eq_iff}
use gputop.Base.{
  ℕ, suc, ◌≡◌, ◌≢◌, Option, none, some, [], ◌∷◌, String, str_eq, if◌then◌else◌, ◌==◌, Bool, true,
  false, arith, refl, length, Ensures,
}
use gputop.Base.Table.{Table}
use gputop.Oa.Examples.{skylake}
use gputop.Client.Streams.{Context}
use gputop.Client.Tracepoints.{Tp, find_tp, Registry, add_tracepoint, remove_tracepoint}
use gputop.Client.Tracepoints.Kept.{
  Numbered, Distinct, IsKept, tracepoints-IsKept, remove_tracepoint-stale,
}

-- Tables as functions, with a test of keys.
abbrev functions :
    {K : Type 0} (same : K → K → Bool)
    → ((k : K) → same k k ≡ true)
    → ((k j : K) → k ≢ j → same k j ≡ false)
    → Table K ℕ
functions same self ne = record {
  T = _ → Option ℕ;
  empty = λ _. none;
  search = λ t k. t k;
  insert = λ t k v j. if same k j then some v else t j;
  remove = λ t k j. if same k j then none else t j;
  search-empty = λ k. refl;
  search-insert_self = λ t k v. rw (self k) refl;
  search-insert_ne = λ t k j v h. rw (ne k j h) refl;
  search-remove_self = λ t k. rw (self k) refl;
  search-remove_ne = λ t k j h. rw (ne k j h) refl;
}

str_self : (k : String) → str_eq k k ≡ true
str_self k = ground (arith, eq_iff k k)

str_ne : (k j : String) → k ≢ j → str_eq k j ≡ false
str_ne k j h = ground (arith, eq_iff k j)

id_self : (k : ℕ) → (k == k) ≡ true
id_self k = ground arith

id_ne : (k j : ℕ) → k ≢ j → (k == j) ≡ false
id_ne k j h = ground arith

abbrev by_name : Table String ℕ
by_name = functions str_eq str_self str_ne

abbrev by_id : Table ℕ ℕ
by_id = functions ◌==◌ id_self id_ne

abbrev idle : Context
idle = record {
  devinfo = skylake;
  metric_set = none;
  n_cpus = 2;
  is_sampling = false;
  oa_aggregation_period_ns = 0;
  oa_sampling_period_ns = 0;
  cpu_stats_sampling_period_ms = 0;
  stream_id = 1;
  streams = [];
  oa_stream = 0;
  cpu_stats_stream = 0;
  perf_tracepoints = [];
  sent = [];
}

abbrev vblank : Tp
vblank = record { address = 4096; name = "vblank"; uuid = "0x1000"; idx = 0; streams = [] }

abbrev watching : Registry by_name by_id (λ address. "0x1000")
watching = record {
  perf_tracepoints = vblank ∷ [];
  name_table = λ k. if str_eq "vblank" k then some 4096 else none;
  uuid_table = λ k. if str_eq "0x1000" k then some 4096 else none;
  stream_table = λ k. none;
  ctx = idle;
  asked = "vblank" ∷ [];
  next = 4097;
}

watching-IsKept : IsKept by_name by_id (λ address. "0x1000") watching
unfolding Numbered Distinct
watching-IsKept = record { numbered = (refl, tt); distinct = (tt, tt); fresh = (omega arith, tt) }

tracepoints-IsKept_example :
    IsKept by_name by_id
      (λ address. "0x1000")
      (add_tracepoint by_name by_id (λ address. "0x1000") "request_add" watching).1
    × Ensures (remove_tracepoint by_name by_id (λ address. "0x1000") 4096 watching) (λ r'.
      IsKept by_name by_id (λ address. "0x1000") r'
      × (1 ≡ suc (length r'.perf_tracepoints))
      × (find_tp r'.perf_tracepoints 4096 ≡ none))
unfolding find_tp
tracepoints-IsKept_example =
    tracepoints-IsKept by_name by_id (λ address. "0x1000") "request_add" 4096 vblank watching
      watching-IsKept refl

remove_tracepoint-stale_example :
    Ensures (remove_tracepoint by_name by_id (λ address. "0x1000") 4096 watching) (λ r'.
      (add_tracepoint by_name by_id (λ address. "0x1000") "vblank" r' ≡ (4096, r'))
      × (find_tp r'.perf_tracepoints 4096 ≡ none)
      × (remove_tracepoint by_name by_id (λ address. "0x1000") 4096 r' ≡ none))
unfolding find_tp
remove_tracepoint-stale_example =
    remove_tracepoint-stale by_name by_id (λ address. "0x1000") "vblank" 4096 vblank watching
      watching-IsKept refl refl
