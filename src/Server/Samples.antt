-- ===== src/Server/Samples.antt =====
-- The samples of an i915 perf stream on their way to the client, server/gputop-server.c.
-- The read of the kernel's stream is an argument: the bytes and the kernel afterwards, or `none`
-- where it returns no byte or an error.
pub mod Drained
mod Examples
use gputop.Base.{
  ℕ, ◌+◌, ◌-◌, ◌/◌, ◌%◌, ◌^◌, Bool, true, false, Option, none, some, List, [], ◌∷◌, ◌++◌, ltb,
  if◌then◌else◌, length, ◌>>=◌,
}

-- The part of `struct gputop_perf_stream` for an i915 perf stream. `closing` is set by the call of
-- `gputop_perf_stream_close`.
pub record OaStream : Type 0 where
  pub id : ℕ
  pub header_written : Bool
  pub total_len : ℕ
  pub flushing : Bool
  pub pending_close : Bool
  pub closing : Bool

-- The header of a message: its kind, three bytes of padding and the id of the stream.
abbrev pub oa_header : ℕ → List ℕ
oa_header id =
    3 ∷ 0 ∷ 0 ∷ 0 ∷ id % 256 ∷ id / 2 ^ 8 % 256 ∷ id / 2 ^ 16 % 256 ∷ id / 2 ^ 24 % 256 ∷ []

-- `flush_i915_perf_stream_samples`, before the message is queued.
unfoldable pub flush_i915_perf_stream_samples : OaStream → OaStream
flush_i915_perf_stream_samples s =
    if s.flushing then s else record s { flushing = true; header_written = false; total_len = 0 }

-- The end of the message.
unfoldable pub oa_finished : OaStream → OaStream
oa_finished s = record s { flushing = false; closing = if s.pending_close then true else s.closing }

module _ {K : Type 0} (read : ℕ → K → Option (List ℕ × K)) where
  -- What a call writes, whether the message ends, the stream and the kernel.
  abbrev pub Call : Type 0
  Call = List ℕ × Bool × OaStream × K

  -- What follows the read, after the bytes that were written before it.
  unfoldable pub after_read : List ℕ → OaStream → K → Option (List ℕ × K) → Call
  after_read header s k none = (header, true, oa_finished s, k)
  after_read header s k (some r) = (
    header ++ r.0,
    false,
    record s { total_len = s.total_len + (length header + length r.0) },
    r.1,
  )

  -- The read of `fragmented_i915_perf_read_cb`.
  abbrev pub read_samples : List ℕ → OaStream → K → ℕ → Call
  read_samples header s k len = after_read header s k (read len k)

  -- `fragmented_i915_perf_read_cb` on a stream; `none` is its assertion on the room for the header.
  unfoldable pub fragmented_i915_perf_read : OaStream → K → ℕ → Option Call
  fragmented_i915_perf_read s k len =
      let headed = read_samples (oa_header s.id) (record s { header_written = true }) k (len - 8) in
      if s.header_written
      then some (read_samples [] s k len)
      else if ltb 8 len
      then some headed
      else none

  -- The calls of the callback with the rooms that the web socket offers, up to the end of the
  -- message; `none` is also a message that has not ended.
  unfoldable pub send_samples : List ℕ → OaStream → K → Option (List ℕ × OaStream × K)
  send_samples [] s k = none
  send_samples (len ∷ lens) s k = fragmented_i915_perf_read s k len >>= λ r.
      let rest = send_samples lens r.2 r.3 in
      if r.1 then some (r.0, r.2, r.3) else (rest >>= λ q. some (r.0 ++ q.0, q.1, q.2))
