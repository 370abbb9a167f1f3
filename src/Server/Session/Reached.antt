-- ===== src/Server/Session/Reached.antt =====
-- Every state that the server reaches while its client is connected.
use gputop.Base.{ℕ, ◌+◌, ◌<◌, ◌≡◌, Bool, true, false, some, [], Ensures, String}
use gputop.Server.Session.{Stream, Server, stream_handle_closed_cb, flush_finished, update_streams}
use gputop.Server.Session.Requests.{OpenRequest, OpenKind, handle_open_stream, handle_close_stream}
use gputop.Server.Session.Counts.{count}
use gputop.Server.Session.Held.{IsHeld}
use gputop.Server.Headers.{Recorder}
use gputop.Server.Session.Opened.{AsksLive}

-- The kernel has written into the rings.
abbrev written : (ℕ → ℕ) → Server → Server
written heads a = record a { recorders = λ j. record (a.recorders j) { data_head = heads j } }

-- The events of the kernel and the main loop: requests, the update of the streams, the end of a message that is on
-- its way, and the closing of a handle that is being closed.
pub data Step (a b : Server) : Type 0 where
  opening :
      (initialized : Bool) (kind : OpenKind) (request : OpenRequest)
      → request.per_ctx_mode ≡ false
      → AsksLive kind request
      → handle_open_stream initialized kind request a ≡ some b
      → Step a b
  asking : (uuid : String) (id : ℕ) → handle_close_stream uuid id a ≡ some b → Step a b
  updating :
      (pending : ℕ → Bool) (size_at : ℕ → ℕ → ℕ)
      → update_streams pending size_at a.streams a ≡ some b
      → Step a b
  writing : (heads : ℕ → ℕ) → b ≡ written heads a → Step a b
  sending :
      (k : ℕ)
      → 0 < count k a.streams + count k a.closing_streams
      → (a.heap k).flushing ≡ true
      → flush_finished k a ≡ some b
      → Step a b
  closing :
      (k : ℕ)
      → 0 < count k a.closing_streams
      → (a.heap k).n_closing_uv_handles ≡ 1
      → stream_handle_closed_cb k a ≡ some b
      → Step a b

pub data Reaches (start : Server) : Server → Type 0 where
  begin : Reaches start start
  next : {a b : Server} → Reaches start a → Step a b → Reaches start b

-- What the server does on its next event, whichever it is.
pub record Serves (a : Server) : Type 0 where
  pub opens :
      (initialized : Bool) (kind : OpenKind) (request : OpenRequest)
      → request.per_ctx_mode ≡ false
      → AsksLive kind request
      → Ensures (handle_open_stream initialized kind request a) IsHeld
  pub asks : (uuid : String) (id : ℕ) → Ensures (handle_close_stream uuid id a) IsHeld
  pub updates :
      (pending : ℕ → Bool) (size_at : ℕ → ℕ → ℕ)
      → Ensures (update_streams pending size_at a.streams a) IsHeld
  pub sends :
      (k : ℕ)
      → 0 < count k a.streams + count k a.closing_streams
      → (a.heap k).flushing ≡ true
      → Ensures (flush_finished k a) IsHeld
  pub closes :
      (k : ℕ)
      → 0 < count k a.closing_streams
      → (a.heap k).n_closing_uv_handles ≡ 1
      → Ensures (stream_handle_closed_cb k a) IsHeld

-- A server with a client that has sent nothing yet.
abbrev pub start : (ℕ → Stream) → (ℕ → Recorder) → Server
start heap recorders = record {
  heap = heap;
  next = 0;
  streams = [];
  closing_streams = [];
  freed = [];
  connected = true;
  sent = [];
  ctx_handles = [];
  recorders = recorders;
}
