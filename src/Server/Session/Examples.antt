-- ===== src/Server/Session/Examples.antt =====
-- A tracepoint that is opened, flushed, and closed while its message is on its way.
use gputop.Server.Headers.{Recorder, update_perf_head_pointers, update_header_offsets}
use gputop.Base.{ℕ, ◌≡◌, refl, Bool, true, false, none, some, [], ◌∷◌, ◌>>=◌, ◌==◌, if◌then◌else◌}
use gputop.Server.Session.{
  perf, Stream, ack, Server, remove, send_pb_message, perf_stream_close, close_stream, close_each,
  terminate_all_streams, socket_closed, update_streams, update_head,
}
use gputop.Server.Session.Requests.{
  OpenRequest, tracepoint, with_file, new_stream, add_ctx_handle, add_stream, handle_open_perf,
  handle_open_oa, handle_open_stream, stream_with_id, handle_close_stream,
}
use gputop.Server.Session.Reached.{next, start}

abbrev request : OpenRequest
request = record { uuid = "u1"; id = 9; live_updates = true; per_ctx_mode = false }

abbrev blank : ℕ → Stream
blank k = new_stream perf none request

abbrev stream : Bool → Stream
stream flushing = record (new_stream perf (some 5) request) { flushing = flushing }

-- What opening a stream leaves when its offsets are not kept.
abbrev no_rings : ℕ → Recorder
no_rings k = record {
  buffer_size = 4096;
  data_head = 0;
  data_tail = 0;
  header_buf = record { offsets = []; len = 0; head = 0; tail = 0; full = false };
}

-- The stream is open.
abbrev opened : Server
opened = record (start blank no_rings) {
  heap = λ j. if j == 0 then stream false else blank j;
  next = 1;
  streams = 0 ∷ [];
  sent = ack "u1" ∷ [];
}

-- Its message is on its way.
abbrev flushing : Server
flushing = record opened {
  heap = λ j. if j == 0 then stream true else (if j == 0 then stream false else blank j);
}

-- A request for a context takes the head of the list that the initialisation emptied.
no_context :
    handle_open_oa true true
      (λ ctx. with_file (some 7))
      (record request { per_ctx_mode = true })
      (add_ctx_handle 3 4 (start blank no_rings))
    ≡ none
unfolding handle_open_oa add_ctx_handle
no_context = refl

-- A tracepoint that cannot be opened is acknowledged.
failed_tracepoint : (handle_open_perf true none request (start blank no_rings)).sent ≡ ack "u1" ∷ []
unfolding handle_open_perf send_pb_message
failed_tracepoint = refl

-- The socket is closed before the handle of a stream that was asked to close.
closed_twice : (handle_close_stream "u2" 9 opened >>= socket_closed) ≡ none
unfolding handle_close_stream stream_with_id close_stream remove perf_stream_close socket_closed
    terminate_all_streams close_each
closed_twice = refl

-- A perf stream without live updates and without a buffer of offsets: its first update divides by
-- the length 0 of the buffer.
unflushed_update :
    (handle_open_stream true
        (tracepoint (some 5))
        (record request { live_updates = false })
        (start blank no_rings)
      >>= λ server. update_streams (λ k. true) (λ k offset. 0) server.streams server)
    ≡ none
unfolding handle_open_stream handle_open_perf add_stream send_pb_message update_streams update_head
    update_perf_head_pointers update_header_offsets
unflushed_update = refl
