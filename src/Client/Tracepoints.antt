-- ===== src/Client/Tracepoints.antt =====
-- The tracepoints that a client watches: gputop_client_context_add_tracepoint and
-- gputop_client_context_remove_tracepoint of lib/gputop-client-context.c. A tracepoint is known by its
-- address, and an address is not given out twice. `none` is an access to a tracepoint that was
-- freed.
pub mod Kept
mod Examples
use gputop.Base.{
  ℕ, zero, suc, ◌+◌, Option, none, some, List, [], ◌∷◌, ◌++◌, String, length, ◌==◌, if◌then◌else◌,
  maybe, ◌>>=◌,
}
use gputop.Base.Table.{Table}
use gputop.Client.Platform.{fit}
use gputop.Client.Streams.{Context, close_all}

-- `struct gputop_perf_tracepoint`, with the ids of its streams, head first, and without the fields
-- of its format.
pub record Tp : Type 0 where
  pub address : ℕ
  pub name : String
  pub uuid : String
  pub idx : ℕ
  pub streams : List ℕ

-- The tracepoint at an address.
unfoldable pub find_tp : List Tp → ℕ → Option Tp
find_tp [] address = none
find_tp (tp ∷ tps) address =
    let rest = find_tp tps address in if tp.address == address then some tp else rest

-- `list_del` of the tracepoint at an address.
unfoldable pub list_del_tp : List Tp → ℕ → List Tp
list_del_tp [] address = []
list_del_tp (tp ∷ tps) address =
    let rest = tp ∷ list_del_tp tps address in if tp.address == address then tps else rest

-- The loop that numbers the tracepoints that are left.
unfoldable pub renumber : ℕ → List Tp → List Tp
renumber idx [] = []
renumber idx (tp ∷ tps) = record tp { idx = idx } ∷ renumber (idx + 1) tps

-- `N` is the tables by name and by uuid, `S` the one by the id of a stream; `generate_uuid` prints
-- an address.
module _ (N : Table String ℕ) (S : Table ℕ ℕ) (generate_uuid : ℕ → String) where
  -- The part of `struct gputop_client_context` that concerns tracepoints: `ctx` has the streams,
  -- and `asked` the requests for the formats, the last first.
  pub record Registry : Type 0 where
    pub perf_tracepoints : List Tp
    pub name_table : N.T
    pub uuid_table : N.T
    pub stream_table : S.T
    pub ctx : Context
    pub asked : List String
    pub next : ℕ

  -- The tracepoint that `calloc` gives, and its entries.
  unfoldable pub create_tracepoint : String → Registry → ℕ × Registry
  create_tracepoint name r =
      let tp : Tp = record {
        address = r.next;
        name = fit 128 name;
        uuid = generate_uuid r.next;
        idx = length r.perf_tracepoints;
        streams = [];
      } in
      (
        r.next,
        record r {
          perf_tracepoints = r.perf_tracepoints ++ (tp ∷ []);
          name_table = N.insert r.name_table (fit 128 name) r.next;
          uuid_table = N.insert r.uuid_table (generate_uuid r.next) r.next;
          asked = fit 128 name ∷ r.asked;
          next = r.next + 1;
        },
      )

  -- `gputop_client_context_add_tracepoint`.
  unfoldable pub add_tracepoint : String → Registry → ℕ × Registry
  add_tracepoint name r =
      maybe (N.search r.name_table name) (create_tracepoint name r) (λ address. (address, r))

  -- The loop of `close_perf_tracepoint` over the table of streams.
  unfoldable pub forget_streams : List ℕ → S.T → S.T
  forget_streams [] table = table
  forget_streams (id ∷ ids) table = forget_streams ids (S.remove table id)

  -- The registry without the tracepoint `tp` at an address.
  abbrev pub without : ℕ → Registry → Tp → Registry
  without address r tp = record r {
    perf_tracepoints = renumber 0 (list_del_tp r.perf_tracepoints address);
    stream_table = forget_streams tp.streams r.stream_table;
    ctx = close_all tp.streams r.ctx;
  }

  -- `gputop_client_context_remove_tracepoint`.
  unfoldable pub remove_tracepoint : ℕ → Registry → Option Registry
  remove_tracepoint address r =
      find_tp r.perf_tracepoints address >>= λ tp. some (without address r tp)
