-- ===== src/Metrics/Examples.antt =====
-- The theorems on the metrics at concrete inputs, and tests.
use text.Mathlib.TextEquality.{eq_iff}
use gputop.Base.{
  ◌≡◌, ◌≢◌, Option, none, some, List, [], ◌∷◌, ◌++◌, String, str_eq, if◌then◌else◌, Bytes, arith,
  refl,
}
use gputop.Base.Table.{Table}
use gputop.Oa.Device.{MetricSet}
use gputop.Metrics.{
  Group, group, nil, cons, counter_group_new, split_path, gen_add_counter, add_along, in_child,
}
use gputop.Metrics.Tree.{counters_at, gen_add_counter_lem}

-- A table as a function, to run the lookups.
abbrev update : {V : Type 0} → (String → V) → String → V → String → V
update t k v j = if str_eq k j then v else t j

update_self : {V : Type 0} (t : String → V) (k : String) (v : V) → update t k v k ≡ v
update_self t k v = ground (arith, eq_iff k k)

update_ne : {V : Type 0} (t : String → V) (k j : String) (v : V) → k ≢ j → update t k v j ≡ t j
update_ne t k j v ne = ground (arith, eq_iff k j)

abbrev functions : Table String MetricSet
functions = record {
  T = String → Option MetricSet;
  empty = λ _. none;
  search = λ t k. t k;
  insert = λ t k v. update t k (some v);
  remove = λ t k. update t k none;
  search-empty = λ k. refl;
  search-insert_self = λ t k v. update_self t k (some v);
  search-insert_ne = λ t k j v ne. update_ne t k j (some v) ne;
  search-remove_self = λ t k. update_self t k none;
  search-remove_ne = λ t k j ne. update_ne t k j none ne;
}

abbrev set_of : String → String → MetricSet
set_of symbol guid = record {
  name = symbol;
  symbol_name = symbol;
  hw_config_guid = guid;
  perf_oa_metrics_set = 0;
  perf_oa_format = 10;
}

abbrev two_sets : List MetricSet
two_sets = set_of "RenderBasic" "b541bd57" ∷ set_of "TestOa" "d6de6f55" ∷ []

-- The path "GPU/EU".
abbrev gpu_eu : Bytes
gpu_eu = b'G' ∷ b'P' ∷ b'U' ∷ b'/' ∷ b'E' ∷ b'U' ∷ []

split-gpu_eu : split_path [] gpu_eu ≡ (b'G' ∷ b'P' ∷ b'U' ∷ []) ∷ (b'E' ∷ b'U' ∷ []) ∷ []
unfolding split_path
split-gpu_eu = refl

abbrev root : Group
root = counter_group_new []

abbrev with_counter : Group
with_counter = group [] [] (
    cons
      (group (b'G' ∷ b'P' ∷ b'U' ∷ []) [] (cons (group (b'E' ∷ b'U' ∷ []) ((7 ∷ []) ∷ []) nil) nil))
      nil)

add_gpu_eu : gen_add_counter root (7 ∷ []) gpu_eu ≡ some with_counter
unfolding gen_add_counter split_path add_along in_child
add_gpu_eu = refl

gen_add_counter_lem_example :
    (counters_at (split_path [] gpu_eu) with_counter
      ≡ counters_at (split_path [] gpu_eu) root ++ ((7 ∷ []) ∷ []))
    × ((names : List Bytes)
        → split_path [] gpu_eu ≢ names
        → counters_at names with_counter ≡ counters_at names root)
gen_add_counter_lem_example = gen_add_counter_lem root with_counter (7 ∷ []) gpu_eu add_gpu_eu
