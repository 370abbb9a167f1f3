-- ===== src/Server/Flush/Examples.antt =====
-- A message of a perf stream whose data go over the end of the ring.
use gputop.Base.{◌+◌, ◌^◌, ◌≡◌, refl, arith, true, false, some, [], ◌∷◌, ◌++◌}
use gputop.Server.Flush.{
  PerfStream, taken, message_header, flush_perf_stream_samples, first_len, read_ring,
  send_fragments, perf_stream_data_pending,
}
use gputop.Server.Flush.Ring.{ring}
use gputop.Server.Flush.Message.{room, send_fragments-ring}

abbrev stream : PerfStream
stream = record {
  id = 300;
  buffer_size = 16;
  buffer = 0 ∷ 1 ∷ 2 ∷ 3 ∷ 4 ∷ 5 ∷ 6 ∷ 7 ∷ 8 ∷ 9 ∷ 10 ∷ 11 ∷ 12 ∷ 13 ∷ 14 ∷ 15 ∷ [];
  data_head = 2 ^ 33 + 34;
  data_tail = 29;
  header_written = true;
  total_len = 99;
  head = 0;
  tail = 0;
  flushing = false;
  pending_close = true;
  closing = false;
}

-- Three bytes at the end of the ring, and two at its start.
wrapped_read : (read_ring (flush_perf_stream_samples stream) 100).0 ≡ 13 ∷ 14 ∷ 15 ∷ 0 ∷ 1 ∷ []
unfolding read_ring flush_perf_stream_samples taken first_len
wrapped_read = refl

send_fragments-ring_example :
    (s' : PerfStream) × (send_fragments (10 ∷ 4 ∷ []) (flush_perf_stream_samples stream)
      ≡ some (message_header 300 ++ ring stream.buffer 16 29 5, s'))
    × (s'.data_tail ≡ 34)
    × (taken 34 34 16 ≡ 0)
    × (s'.flushing ≡ false)
    × (s'.closing ≡ true)
unfolding taken perf_stream_data_pending room
send_fragments-ring_example =
    send_fragments-ring 10 (4 ∷ []) stream
      (record { positive = omega arith; factor = 2 ^ 60; divides = refl }) refl (omega arith) refl
      refl (omega arith) (omega arith)
