-- ===== src/Client/Timeline/Message/Flushed.antt =====
-- What a perf stream of the server flushes, the client adds to its time line.
use gputop.Base.{
  ◌==◌, ℕ, ◌+◌, ◌^◌, ◌≤◌, ◌<◌, ◌≡◌, ap, ◌∙◌, arith, Option, none, some, true, false, List, ◌∷◌,
  ◌++◌, Bytes, length, All, ltb, if◌then◌else◌, Ensures, Ensures-of,
}
use gputop.Base.Table.{Table}
use gputop.Server.Flush.{
  PerfStream, message_header, perf_stream_data_pending, flush_perf_stream_samples, send_fragments,
}
use gputop.Server.Flush.Ring.{IsSize, ring}
use gputop.Server.Flush.Message.{room, pending, send_fragments-ring}
use gputop.Client.Timeline.Message.{le, TpStream, Received, handle_perf_data, handle_data}
use gputop.Client.Timeline.Message.Added.{IsBytes, IsOrdered, HasFields, IsSafe}
use gputop.Client.Timeline.Message.Records.{IsRecord, concat, AllAdded, handle_perf_data-AllAdded}

header_id : (id : ℕ) (bytes : Bytes) → id < 2 ^ 32 → le 4 (message_header id ++ bytes) 4 ≡ id
unfolding le
header_id id bytes h = omega arith

-- The client hands such a message to the handler of perf streams.
pub handle_data-message_header :
    {C : Type 0} (perf i915_perf : ℕ → Bytes → C → Option C) (protobuf : Bytes → C → Option C)
    (id : ℕ) (bytes : Bytes) (ctx : C)
    → id < 2 ^ 32
    → handle_data perf protobuf i915_perf (message_header id ++ bytes) ctx ≡ perf id bytes ctx
unfolding handle_data
handle_data-message_header perf i915_perf protobuf id bytes ctx h =
    let payload = message_header id ++ bytes in
    let some_bytes : (length payload == 0) ≡ false = ground arith in
    let whole : ltb (length payload) 8 ≡ false = ground arith in
    ap
      (λ t.
        if t
        then none
        else if ltb (length payload) 8
        then none
        else perf (le 4 payload 4) bytes ctx)
      some_bytes
    ∙ ap (λ t. if t then none else perf (le 4 payload 4) bytes ctx) whole
    ∙ ap (λ k. perf k bytes ctx) (header_id id bytes h)

module _ (S : Table ℕ TpStream) where
  -- The client's handling of a message, with handlers for the other kinds.
  abbrev pub receive :
      (protobuf : Bytes → Received → Option Received)
      → (i915_perf : ℕ → Bytes → Received → Option Received) → S.T
      → ℕ
      → Bytes
      → Received
      → Option Received
  receive protobuf i915_perf table max_length =
      handle_data (λ id bytes r. handle_perf_data S table max_length id bytes r) protobuf i915_perf

  -- A flush of a stream with pending data, in fragments that leave room for it, sends one message.
  -- When what is pending in the ring are whole records, across its end or not, with the fields that
  -- the client reads inside, a client that knows the stream handles this message without a read out
  -- of bounds or of a freed point, if it looks for no processes in them or its points and those of
  -- the records all lie in one window. Its time line, which was in order, stays so, and what it keeps
  -- and what was freed are the points from before and one for each record, with the tracepoint and
  -- processor of the stream and the time and the bytes of the record.
  pub flushed-AllAdded :
      (protobuf : Bytes → Received → Option Received)
      (i915_perf : ℕ → Bytes → Received → Option Received) (table : S.T) (lo max_length len : ℕ)
      (lens : List ℕ) (s : PerfStream) (stream : TpStream) (records : List Bytes) (r : Received)
      → IsSize s.buffer_size
      → length s.buffer ≡ s.buffer_size
      → s.data_tail < 2 ^ 64
      → s.flushing ≡ false
      → perf_stream_data_pending s ≡ true
      → 8 < len
      → 8 + pending s ≤ room (len ∷ lens)
      → s.id < 2 ^ 32
      → ring s.buffer s.buffer_size s.data_tail (pending s) ≡ concat records
      → S.search table s.id ≡ some stream
      → All IsRecord records
      → All IsBytes records
      → All (HasFields stream) records
      → IsOrdered r.timeline.points
      → IsSafe lo max_length stream records r.timeline.points
      → Ensures (send_fragments (len ∷ lens) (flush_perf_stream_samples s)) (λ sent.
        Ensures (receive protobuf i915_perf table max_length sent.0 r) (AllAdded stream records r))
  flushed-AllAdded protobuf i915_perf table lo max_length len lens s stream records r size whole
        tail idle some_pending h fits word holds known ws bs fs o safe =
      let sent = send_fragments-ring len lens s size whole tail idle some_pending h fits in
      let added =
        handle_perf_data-AllAdded S table lo max_length s.id stream records r known ws bs fs o
          safe in
      Ensures-of (message_header s.id ++ concat records, sent.0)
        (sent.1 ∙ ap (λ bytes. some (message_header s.id ++ bytes, sent.0)) holds)
        (Ensures-of added.result
          (handle_data-message_header (λ id bytes r. handle_perf_data S table max_length id bytes r)
              i915_perf protobuf s.id (concat records) r word
            ∙ added.runs)
          added.holds)
