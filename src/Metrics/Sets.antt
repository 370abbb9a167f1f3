-- ===== src/Metrics/Sets.antt =====
-- The metric sets of a generation: `struct gputop_gen`, `gputop_gen_new` and
-- `gputop_gen_add_metric_set`, and the two lookups of lib/gputop-client-context.c.
use text.Mathlib.TextEquality.{eq_iff}
use mathlib.Core.Bool.{false≢true}
use mathlib.Core.Path.{subst}
use mathlib.Core.List.{append-nil, append_assoc}
use gputop.Base.{
  Option, none, some, List, [], ◌∷◌, ◌++◌, String, str_eq, if◌then◌else◌, ◌≡◌, refl, ap, sym, ◌∙◌,
  Bool-cases, inl, inr,
}
use gputop.Base.Table.{Table}
use gputop.Oa.Device.{MetricSet}
use gputop.Metrics.{Group, counter_group_new}

-- The first set of a symbol name, in the order of `metric_sets`.
unfoldable pub find_symbol : String → List MetricSet → Option MetricSet
find_symbol symbol_name [] = none
find_symbol symbol_name (s ∷ ss) =
    if str_eq s.symbol_name symbol_name then some s else find_symbol symbol_name ss

module _ (table : Table String MetricSet) where
  open table use {T, empty, search, insert, search-empty, search-insert_self, search-insert_ne}

  -- `struct gputop_gen`, without its name.
  pub record Gen : Type 0 where
    pub root_group : Group
    pub metric_sets : List MetricSet
    pub metric_sets_map : T

  -- `gputop_gen_new`.
  unfoldable pub gen_new : Gen
  gen_new = record { root_group = counter_group_new []; metric_sets = []; metric_sets_map = empty }

  -- `gputop_gen_add_metric_set`.
  unfoldable pub gen_add_metric_set : Gen → MetricSet → Gen
  gen_add_metric_set gen metric_set = record gen {
    metric_sets = gen.metric_sets ++ (metric_set ∷ []);
    metric_sets_map = insert gen.metric_sets_map metric_set.hw_config_guid metric_set;
  }

  -- `gputop_client_context_uuid_to_metric_set`.
  unfoldable pub uuid_to_metric_set : Gen → String → Option MetricSet
  uuid_to_metric_set gen uuid = search gen.metric_sets_map uuid

  -- `gputop_client_context_symbol_to_metric_set`.
  unfoldable pub symbol_to_metric_set : Gen → String → Option MetricSet
  unfolding find_symbol
  symbol_to_metric_set gen symbol_name = find_symbol symbol_name gen.metric_sets

  pub add_all : Gen → List MetricSet → Gen
  add_all gen [] = gen
  add_all gen (s ∷ ss) = add_all (gen_add_metric_set gen s) ss

  -- The last set of a list with a given guid.
  pub last_guid : Option MetricSet → String → List MetricSet → Option MetricSet
  last_guid found uuid [] = found
  last_guid found uuid (s ∷ ss) =
      last_guid (if str_eq s.hw_config_guid uuid then some s else found) uuid ss

  search-add_all :
      (ss : List MetricSet) (gen : Gen) (uuid : String)
      → uuid_to_metric_set (add_all gen ss) uuid ≡ last_guid (uuid_to_metric_set gen uuid) uuid ss
  unfolding add_all last_guid gen_add_metric_set uuid_to_metric_set
  search-add_all [] gen uuid = refl
  search-add_all (s ∷ ss) gen uuid =
      search-add_all ss (gen_add_metric_set gen s) uuid ∙ ap (λ o. last_guid o uuid ss) one
    where
      one :
          search (insert gen.metric_sets_map s.hw_config_guid s) uuid
          ≡ (if str_eq s.hw_config_guid uuid then some s else search gen.metric_sets_map uuid)
      one = elim (Bool-cases (str_eq s.hw_config_guid uuid)) [
        | inl e ↦ rw e (
            subst (λ k. search (insert gen.metric_sets_map s.hw_config_guid s) k ≡ some s)
              ((eq_iff s.hw_config_guid uuid).0 e)
              (search-insert_self gen.metric_sets_map s.hw_config_guid s))
        | inr ne ↦ rw ne (
            search-insert_ne gen.metric_sets_map s.hw_config_guid uuid s
              (λ e. false≢true (sym ne ∙ (eq_iff s.hw_config_guid uuid).1 e)))
      ]

  sets-add_all :
      (ss : List MetricSet) (gen : Gen) → (add_all gen ss).metric_sets ≡ gen.metric_sets ++ ss
  unfolding add_all gen_add_metric_set
  sets-add_all [] gen = sym (append-nil gen.metric_sets)
  sets-add_all (s ∷ ss) gen =
      sets-add_all ss (gen_add_metric_set gen s) ∙ append_assoc gen.metric_sets (s ∷ []) ss

  -- After the sets of a list are added to a new generation, a lookup by guid finds the last of
  -- them that has it, and a lookup by symbol name the first that has it.
  pub lookup-add_all :
      (ss : List MetricSet) (key : String)
      → (uuid_to_metric_set (add_all gen_new ss) key ≡ last_guid none key ss)
        × (symbol_to_metric_set (add_all gen_new ss) key ≡ find_symbol key ss)
  unfolding gen_new symbol_to_metric_set
  lookup-add_all ss key = (
    search-add_all ss gen_new key
        ∙ ap (λ o. last_guid o key ss) (unfold uuid_to_metric_set in search-empty key),
    ap (find_symbol key) (sets-add_all ss gen_new),
  )
