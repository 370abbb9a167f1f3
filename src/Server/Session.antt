-- ===== src/Server/Session.antt =====
-- The streams that the server holds for its client, server/gputop-server.c and
-- server/gputop-perf.c: they are opened, flushed and closed by events of the main loop.
-- A stream is the address of its structure in a store. The kernel, libuv and the web socket are
-- the events and arguments of the operations; `none` is a fault, among them a handle that is
-- closed while it is closing, which libuv refuses.
pub mod Requests
pub mod Counts
pub mod Held
pub mod Closes
pub mod Freed
pub mod Settled
pub mod Opened
pub mod Reached
mod Examples
use gputop.Server.Headers.{Recorder, update_perf_head_pointers}
use gputop.Base.{
  ℕ, ◌+◌, ◌-◌, Bool, true, false, Option, none, some, List, [], ◌∷◌, ◌++◌, ◌==◌, ◌||◌, not,
  if◌then◌else◌, maybe, ◌>>=◌, String,
}

-- `enum gputop_perf_stream_type`.
pub data Kind : Type 0 where
  perf : Kind
  i915_perf : Kind
  cpu : Kind

-- The two functions that are passed as `on_close_cb`.
pub data OnClose : Type 0 where
  stream_closed : OnClose
  stream_closed_notify : OnClose

-- The messages that answer requests and announce what became of a stream.
pub data Message : Type 0 where
  ack : String → Message
  error : String → String → Message
  close_notify : ℕ → Message
  fill_notify : (id offset : ℕ) → Message

-- The part of `struct gputop_perf_stream` that its life uses; an `fd` of -1 is `none`, and `user_data`
-- is the uuid of the request to close the stream.
pub record Stream : Type 0 where
  pub id : ℕ
  pub kind : Kind
  pub fd : Option ℕ
  pub live_updates : Bool
  pub flushing : Bool
  pub pending_close : Bool
  pub closed : Bool
  pub n_closing_uv_handles : ℕ
  pub on_close : Option OnClose
  pub ref_count : ℕ
  pub user_data : Option String

-- `struct ctx_handle`.
pub record CtxHandle : Type 0 where
  pub id : ℕ
  pub fd : ℕ

-- The store with the next free address, the two lists, the streams that were freed, whether
-- `h2o_conn` is set, and the messages that were sent;
-- `ctx_handles_list` of the hardware contexts. `recorders` has the ring of each perf stream, which
-- opening the stream maps, with its buffer of offsets.
pub record Server : Type 0 where
  pub heap : ℕ → Stream
  pub next : ℕ
  pub streams : List ℕ
  pub closing_streams : List ℕ
  pub freed : List ℕ
  pub connected : Bool
  pub sent : List Message
  pub ctx_handles : List CtxHandle
  pub recorders : ℕ → Recorder

abbrev pub write : ℕ → Stream → Server → Server
write k s server = record server { heap = λ j. if j == k then s else server.heap j }

-- `list_del`, of the list that the stream is in.
unfoldable pub remove : ℕ → List ℕ → List ℕ
remove k [] = []
remove k (j ∷ js) = let rest = remove k js in if j == k then js else j ∷ rest

abbrev pub list_del : ℕ → Server → Server
list_del k server = record server {
  streams = remove k server.streams;
  closing_streams = remove k server.closing_streams;
}

-- `send_pb_message`.
unfoldable pub send_pb_message : Message → Server → Server
send_pb_message message server =
    if server.connected then record server { sent = server.sent ++ (message ∷ []) } else server

-- `gputop_perf_stream_unref`; the stream must be closed.
unfoldable pub stream_unref : ℕ → Server → Option Server
stream_unref k server =
    let s = record (server.heap k) { ref_count = (server.heap k).ref_count - 1 } in
    if (server.heap k).ref_count == 1
    then (if s.closed then some (record (write k s server) { freed = k ∷ server.freed }) else none)
    else some (write k s server)

-- `stream_closed_cb`.
abbrev pub stream_closed_cb : ℕ → Server → Option Server
stream_closed_cb k server = stream_unref k (list_del k server)

-- The acknowledgement of `stream_closed_notify_cb`.
abbrev pub ack_close : ℕ → Server → Server
ack_close k server = maybe (server.heap k).user_data server (λ uuid.
    write k (record (server.heap k) { user_data = none }) (send_pb_message (ack uuid) server))

-- `stream_closed_notify_cb`.
unfoldable pub stream_closed_notify_cb : ℕ → Server → Option Server
stream_closed_notify_cb k server =
    stream_closed_cb k (send_pb_message (close_notify (server.heap k).id) (ack_close k server))

-- The file of a stream after `finish_stream_close`.
abbrev pub closed_fd : Kind → Option ℕ → Option ℕ
closed_fd cpu fd = fd
closed_fd kind none = none
closed_fd kind (some n) = if n == 0 then some n else none

-- The call of `on_close_cb`.
abbrev pub call_on_close : Option OnClose → ℕ → Server → Option Server
call_on_close none k server = none
call_on_close (some stream_closed) k server = stream_closed_cb k server
call_on_close (some stream_closed_notify) k server = stream_closed_notify_cb k server

-- `finish_stream_close`.
unfoldable pub finish_stream_close : ℕ → Server → Option Server
finish_stream_close k server =
    let s = server.heap k in
    call_on_close s.on_close k
      (write k (record s { fd = closed_fd s.kind s.fd; closed = true }) server)

-- Whether `gputop_perf_stream_close` has a handle to close.
abbrev pub has_handle : Kind → Option ℕ → Bool
has_handle perf none = false
has_handle kind fd = true

-- `gputop_perf_stream_close`.
unfoldable pub perf_stream_close : OnClose → ℕ → Server → Option Server
perf_stream_close callback k server =
    let s = record (server.heap k) { on_close = some callback } in
    if has_handle s.kind s.fd
    then (if s.n_closing_uv_handles == 0
        then some (write k (record s { n_closing_uv_handles = s.n_closing_uv_handles + 1 }) server)
        else none)
    else (if s.n_closing_uv_handles == 0
        then finish_stream_close k (write k s server)
        else some (write k s server))

-- `stream_handle_closed_cb`.
unfoldable pub stream_handle_closed_cb : ℕ → Server → Option Server
stream_handle_closed_cb k server =
    let s = server.heap k in
    let server1 = write k (record s { n_closing_uv_handles = s.n_closing_uv_handles - 1 }) server in
    if s.n_closing_uv_handles == 1 then finish_stream_close k server1 else some server1

-- `close_stream`.
unfoldable pub close_stream : ℕ → Server → Option Server
close_stream k server =
    let moved = record (list_del k server) {
      closing_streams = remove k server.closing_streams ++ (k ∷ []);
    } in
    let server1 = write k (record (server.heap k) { pending_close = true }) moved in
    if (server.heap k).flushing
    then some server1
    else perf_stream_close stream_closed_notify k server1

-- The loops of `terminate_all_streams`.
unfoldable pub close_each : List ℕ → Server → Option Server
close_each [] server = some server
close_each (k ∷ ks) server = perf_stream_close stream_closed k server >>= close_each ks

-- `terminate_all_streams`.
unfoldable pub terminate_all_streams : Server → Option Server
terminate_all_streams server =
    close_each server.streams server >>= λ server1. close_each server1.closing_streams server1

-- The socket is closed, in `on_ws_message`.
unfoldable pub socket_closed : Server → Option Server
socket_closed server = terminate_all_streams (record server { connected = false })

-- The end of a fragmented message, in its callback.
unfoldable pub flush_finished : ℕ → Server → Option Server
flush_finished k server =
    let server1 = write k (record (server.heap k) { flushing = false }) server in
    if (server.heap k).pending_close
    then perf_stream_close stream_closed_notify k server1
    else some server1

-- The start of a flush, by the kind of the stream; without a socket, a message that is queued
-- dereferences NULL.
abbrev pub start_flush : ℕ → Server → Kind → Option Server
start_flush k server cpu = some server
start_flush k server kind =
    if server.connected
    then some (write k (record (server.heap k) { flushing = true }) server)
    else none

-- `flush_stream_samples`, where `pending` says whether the stream has data.
unfoldable pub flush_stream_samples : Bool → ℕ → Server → Option Server
flush_stream_samples pending k server =
    let s = server.heap k in
    if s.flushing
    then some server
    else if s.pending_close || s.closed
    then none
    else if pending
    then start_flush k server s.kind
    else some server

-- The update of a perf stream that is not flushed; `size_at` reads the records of its ring.
unfoldable pub update_head : (ℕ → ℕ) → ℕ → Server → Option Server
update_head size_at k server = update_perf_head_pointers size_at (server.recorders k) >>= λ updated.
    let server1 = record server {
      recorders = λ j. if j == k then updated.0 else server.recorders j;
    } in
    some (
      maybe updated.1 server1
        (λ offset. send_pb_message (fill_notify (server.heap k).id offset) server1))

abbrev pub update_kind : (ℕ → ℕ) → ℕ → Server → Kind → Option Server
update_kind size_at k server perf = update_head size_at k server
update_kind size_at k server kind = some server

-- `update_streams`. `size_at` is by stream.
unfoldable pub update_streams : (ℕ → Bool) → (ℕ → ℕ → ℕ) → List ℕ → Server → Option Server
update_streams pending size_at [] server = some server
update_streams pending size_at (k ∷ ks) server =
    (if (server.heap k).live_updates
      then flush_stream_samples (pending k) k server
      else update_kind (size_at k) k server (server.heap k).kind)
    >>= update_streams pending size_at ks
