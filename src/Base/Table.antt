-- ===== src/Base/Table.antt =====
-- The hash tables of mesa's util/hash_table.h, which the program only calls: what it relies on.
use mathlib.Core.Path.{◌≡◌}
use mathlib.Core.Logic.{◌≢◌}
use mathlib.Core.Option.{Option, none, some}

pub record Table (K V : Type 0) : Type 1 where
  pub T : Type 0
  pub empty : T
  pub search : T → K → Option V
  pub insert : T → K → V → T
  pub remove : T → K → T
  pub search-empty : (k : K) → search empty k ≡ none
  pub search-insert_self : (t : T) (k : K) (v : V) → search (insert t k v) k ≡ some v
  pub search-insert_ne : (t : T) (k j : K) (v : V) → k ≢ j → search (insert t k v) j ≡ search t j
  pub search-remove_self : (t : T) (k : K) → search (remove t k) k ≡ none
  pub search-remove_ne : (t : T) (k j : K) → k ≢ j → search (remove t k) j ≡ search t j
