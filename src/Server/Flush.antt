-- ===== src/Server/Flush.antt =====
-- The samples of a perf stream on their way to the client, server/gputop-server.c: the ring that
-- the kernel fills, and the message that is sent in fragments.
-- The size of the ring is a power of two, so that masking an offset is its remainder.
pub mod Ring
pub mod Parts
pub mod Fragments
pub mod Message
mod Examples
use gputop.Base.{
  ℕ, ◌+◌, ◌-◌, ◌/◌, ◌%◌, ◌^◌, Bool, true, false, Option, none, some, List, [], ◌∷◌, ◌++◌, ltb, ◌==◌,
  if◌then◌else◌, not, length, take, drop, min, u32, u64, sub64, ◌>>=◌,
}

-- The part of `struct gputop_perf_stream` that the flushing uses, with the two positions of
-- `struct perf_event_mmap_page` and the bytes of the ring. `closing` is set by the call of
-- `gputop_perf_stream_close`.
pub record PerfStream : Type 0 where
  pub id : ℕ
  pub buffer_size : ℕ
  pub buffer : List ℕ
  pub data_head : ℕ
  pub data_tail : ℕ
  pub header_written : Bool
  pub total_len : ℕ
  pub head : ℕ
  pub tail : ℕ
  pub flushing : Bool
  pub pending_close : Bool
  pub closing : Bool

-- `TAKEN`.
unfoldable pub taken : ℕ → ℕ → ℕ → ℕ
taken head tail pot_size = sub64 head tail % pot_size

-- `read_perf_head`, an `unsigned int`.
abbrev pub read_perf_head : PerfStream → ℕ
read_perf_head s = u32 s.data_head

-- `perf_stream_data_pending`.
unfoldable pub perf_stream_data_pending : PerfStream → Bool
perf_stream_data_pending s = not (taken (read_perf_head s) s.data_tail s.buffer_size == 0)

-- `memcpy` out of the ring.
abbrev pub copy : PerfStream → ℕ → ℕ → List ℕ
copy s p n = take n (drop p s.buffer)

-- The header of a message: its kind, three bytes of padding and the id of the stream.
abbrev pub message_header : ℕ → List ℕ
message_header id =
    1 ∷ 0 ∷ 0 ∷ 0 ∷ id % 256 ∷ id / 2 ^ 8 % 256 ∷ id / 2 ^ 16 % 256 ∷ id / 2 ^ 24 % 256 ∷ []

-- `flush_perf_stream_samples`, before the message is queued.
unfoldable pub flush_perf_stream_samples : PerfStream → PerfStream
flush_perf_stream_samples s = if s.flushing then s else record s {
  flushing = true;
  header_written = false;
  total_len = 0;
  head = read_perf_head s;
  tail = s.data_tail;
}

-- The bytes of the ring up to its end, where the data go on at its start.
unfoldable pub first_len : PerfStream → ℕ → ℕ
first_len s len =
    if ltb (s.head % s.buffer_size) (s.tail % s.buffer_size)
    then min (s.buffer_size - s.tail % s.buffer_size) len
    else 0

-- The end of the message: the kernel may write over what was sent.
unfoldable pub finished : PerfStream → PerfStream
finished s = record s {
  data_tail = u32 s.tail;
  flushing = false;
  closing = if s.pending_close then true else s.closing;
}

-- The two copies of `fragmented_perf_read_cb` into `len` bytes: what is written, whether the
-- message ends, and the stream.
unfoldable pub read_ring : PerfStream → ℕ → List ℕ × Bool × PerfStream
read_ring s len =
    let first = first_len s len in
    let tail1 = u64 (s.tail + first) in
    let second = min (taken s.head tail1 s.buffer_size) (len - first) in
    let tail2 = u64 (tail1 + second) in
    let s2 = record s { tail = tail2; total_len = s.total_len + (first + second) } in
    let bytes = copy s (s.tail % s.buffer_size) first ++ copy s (tail1 % s.buffer_size) second in
    let eof = taken s.head tail2 s.buffer_size == 0 in (bytes, eof, if eof then finished s2 else s2)

-- `fragmented_perf_read_cb` on a stream; `none` is its assertion on the room for the header.
unfoldable pub fragmented_perf_read : PerfStream → ℕ → Option (List ℕ × Bool × PerfStream)
fragmented_perf_read s len =
    let r = read_ring (record s { header_written = true; total_len = s.total_len + 8 }) (len - 8) in
    if s.header_written
    then some (read_ring s len)
    else if ltb 8 len
    then some (message_header s.id ++ r.0, r.1, r.2)
    else none

-- The calls of the callback with the rooms that the web socket offers, up to the end of the
-- message; `none` is also a message that has not ended.
unfoldable pub send_fragments : List ℕ → PerfStream → Option (List ℕ × PerfStream)
send_fragments [] s = none
send_fragments (len ∷ lens) s = fragmented_perf_read s len >>= λ r.
    if r.1
    then some (r.0, r.2)
    else (send_fragments lens r.2 >>= λ rest. some (r.0 ++ rest.0, rest.1))
