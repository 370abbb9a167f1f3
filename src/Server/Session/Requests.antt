-- ===== src/Server/Session/Requests.antt =====
-- The requests that open and close streams: handle_open_stream and handle_close_stream of
-- server/gputop-server.c, and the context handles of server/gputop-perf.c.
use gputop.Base.{
  ℕ, ◌+◌, Bool, true, false, Option, none, some, List, [], ◌∷◌, ◌++◌, ◌==◌, not, if◌then◌else◌,
  maybe, ◌>>=◌, String,
}
use gputop.Server.Session.{
  Kind, perf, i915_perf, cpu, Stream, CtxHandle, ack, error, Server, write, send_pb_message,
  close_stream,
}

-- What a request to open a stream holds that the handlers use.
pub record OpenRequest : Type 0 where
  pub uuid : String
  pub id : ℕ
  pub live_updates : Bool
  pub per_ctx_mode : Bool

-- `gputop_add_ctx_handle`.
unfoldable pub add_ctx_handle : ℕ → ℕ → Server → Server
add_ctx_handle fd id server = record server {
  ctx_handles = server.ctx_handles ++ (record { id = id; fd = fd } ∷ []);
}

-- The list after `gputop_remove_ctx_handle`, and whether it returns true.
unfoldable pub remove_ctx_handle : ℕ → List CtxHandle → List CtxHandle × Bool
remove_ctx_handle id [] = ([], false)
remove_ctx_handle id (ctx ∷ rest) =
    let r = remove_ctx_handle id rest in if ctx.id == id then (rest, true) else (ctx ∷ r.0, r.1)

-- `lookup_ctx_handle`.
unfoldable pub lookup_ctx_handle : ℕ → List CtxHandle → Option CtxHandle
lookup_ctx_handle id [] = none
lookup_ctx_handle id (ctx ∷ rest) =
    let later = lookup_ctx_handle id rest in if ctx.id == id then some ctx else later

-- `get_first_available_ctx`; of an empty list it returns the head of the list, which is no
-- context and not NULL, and which is `none` here.
abbrev pub get_first_available_ctx : List CtxHandle → Option CtxHandle
get_first_available_ctx [] = none
get_first_available_ctx (ctx ∷ rest) = some ctx

-- The start of `gputop_perf_initialize`; whether it succeeds is an argument of the handlers.
abbrev pub perf_initialize : Server → Server
perf_initialize server = record server { ctx_handles = [] }

-- A stream that was opened.
abbrev pub new_stream : Kind → Option ℕ → OpenRequest → Stream
new_stream kind fd request = record {
  id = request.id;
  kind = kind;
  fd = fd;
  live_updates = request.live_updates;
  flushing = false;
  pending_close = false;
  closed = false;
  n_closing_uv_handles = 0;
  on_close = none;
  ref_count = 1;
  user_data = none;
}

-- The new stream is put at the end of the list.
unfoldable pub add_stream : Kind → Option ℕ → OpenRequest → Server → Server
add_stream kind fd request server = record (write server.next (new_stream kind fd request) server) {
  next = server.next + 1;
  streams = server.streams ++ (server.next ∷ []);
}

-- `handle_open_tracepoint` and `handle_open_generic_stream`, which differ in the call that opens
-- the stream: `opened` is the file, or `none` where the call returns NULL.
unfoldable pub handle_open_perf : Bool → Option ℕ → OpenRequest → Server → Server
handle_open_perf initialized opened request server0 =
    let server = perf_initialize server0 in
    if initialized
    then send_pb_message (ack request.uuid)
        (maybe opened server (λ fd. add_stream perf (some fd) request server))
    else send_pb_message (error request.uuid "Failed to initialize perf\n") server

-- `handle_open_cpu_stats`.
unfoldable pub handle_open_cpu_stats : Bool → OpenRequest → Server → Server
handle_open_cpu_stats initialized request server0 =
    let server = perf_initialize server0 in
    if initialized
    then send_pb_message (ack request.uuid) (add_stream cpu none request server)
    else send_pb_message (error request.uuid "Failed to initialize perf\n") server

-- What opening an i915 perf stream returns: an error text, or the file, which is -1 in fake mode.
pub data Opening : Type 0 where
  refused : String → Opening
  with_file : Option ℕ → Opening

-- The end of `handle_open_i915_perf_oa_stream`.
abbrev pub finish_open_oa : Opening → OpenRequest → Server → Server
finish_open_oa (refused text) request server = send_pb_message (error request.uuid text) server
finish_open_oa (with_file fd) request server =
    send_pb_message (ack request.uuid) (add_stream i915_perf fd request server)

-- `handle_open_i915_perf_oa_stream`. `known` is whether the metric set is known, and `opening` is
-- what the opening returns for a context, or without one. A fault is an opening with the head of
-- the list as its context.
unfoldable pub handle_open_oa :
    Bool → Bool → (Option CtxHandle → Opening) → OpenRequest → Server → Option Server
handle_open_oa initialized known opening request server0 =
    let server = perf_initialize server0 in
    let in_context = get_first_available_ctx server.ctx_handles >>= λ ctx.
    some (finish_open_oa (opening (some ctx)) request server) in
    if not initialized
    then some (send_pb_message (error request.uuid "Failed to initialize perf\n") server)
    else if not known
    then some (send_pb_message (error request.uuid "uuid is not available\n") server)
    else if request.per_ctx_mode
    then in_context
    else some (finish_open_oa (opening none) request server)

-- The kinds of a request to open a stream, with what the kernel answers.
pub data OpenKind : Type 0 where
  oa_stream : Bool → (Option CtxHandle → Opening) → OpenKind
  tracepoint : Option ℕ → OpenKind
  generic : Option ℕ → OpenKind
  cpu_stats : OpenKind
  gl_query : OpenKind

-- `handle_open_stream`.
unfoldable pub handle_open_stream : Bool → OpenKind → OpenRequest → Server → Option Server
handle_open_stream initialized (oa_stream known opening) request server =
    handle_open_oa initialized known opening request server
handle_open_stream initialized (tracepoint opened) request server =
    some (handle_open_perf initialized opened request server)
handle_open_stream initialized (generic opened) request server =
    some (handle_open_perf initialized opened request server)
handle_open_stream initialized cpu_stats request server =
    some (handle_open_cpu_stats initialized request server)
handle_open_stream initialized gl_query request server = some (
    send_pb_message (error request.uuid "FIXME: implement support for opening GL queries\n") server)

-- The stream with an id that stands first in the list.
unfoldable pub stream_with_id : (ℕ → Stream) → ℕ → List ℕ → Option ℕ
stream_with_id heap id [] = none
stream_with_id heap id (k ∷ ks) =
    let later = stream_with_id heap id ks in if (heap k).id == id then some k else later

-- `handle_close_stream` on the stream that was found.
abbrev pub close_found : String → ℕ → Server → Option Server
close_found uuid k server =
    maybe (server.heap k).user_data
      (close_stream k (write k (record (server.heap k) { user_data = some uuid }) server))
      (λ other. none)

-- `handle_close_stream`; a request for a stream that is not there is not answered.
unfoldable pub handle_close_stream : String → ℕ → Server → Option Server
handle_close_stream uuid id server =
    maybe (stream_with_id server.heap id server.streams) (some server)
      (λ k. close_found uuid k server)
