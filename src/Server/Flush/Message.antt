-- ===== src/Server/Flush/Message.antt =====
-- The calls of fragmented_perf_read_cb that send one message, from its start to its end.
use gputop.Base.{
  ℕ, ◌+◌, ◌-◌, ◌^◌, ◌≤◌, ◌<◌, ◌≡◌, inl, inr, refl, sym, ap, ap₂, ◌∙◌, arith, Bool, true, false,
  Option, none, some, List, [], ◌∷◌, ◌++◌, ltb, ◌==◌, if◌then◌else◌, length, min, u32, u64,
  Bool-cases, ltb→lt, lt→ltb, ◌>>=◌,
}
use gputop.Server.Flush.{
  PerfStream, taken, read_perf_head, message_header, flush_perf_stream_samples, finished, read_ring,
  fragmented_perf_read, send_fragments, perf_stream_data_pending,
}
use gputop.Server.Flush.Ring.{ring, IsSize, u64-mod, ring_mod, ring_add}
use gputop.Server.Flush.Parts.{IsRing, left, moved}
use gputop.Server.Flush.Fragments.{
  reads, read_ring_lem, moved-IsRing, left-moved, moved-moved, sent,
}

unfoldable pub room : List ℕ → ℕ
room [] = 0
room (len ∷ lens) = len + room lens

-- How the sending goes on after a call that read `bytes`.
abbrev go_on : List ℕ → List ℕ → PerfStream → PerfStream → Bool → Option (List ℕ × PerfStream)
go_on lens bytes done more over =
    let next = if over then done else more in
    if over
    then some (bytes, next)
    else (send_fragments lens next >>= λ rest. some (bytes ++ rest.0, rest.1))

-- The whole message from a stream on: the bytes that are left, and the stream at its end.
abbrev pub message : PerfStream → List ℕ × PerfStream
message s = (ring s.buffer s.buffer_size s.tail (left s), sent s (left s))

module _ (s : PerfStream) (len : ℕ) (lens : List ℕ) (v : IsRing s) where
  abbrev rest_of : ℕ → Option (List ℕ × PerfStream)
  rest_of m =
      go_on lens (ring s.buffer s.buffer_size s.tail m) (finished (moved s m)) (moved s m)
        (left s - m == 0)

  last_call : left s ≤ len → rest_of (min (left s) len) ≡ some (message s)
  last_call h =
      let all : min (left s) len ≡ left s = omega arith in
      let none_left : (left s - left s == 0) ≡ true = ground arith in
      ap rest_of all
      ∙ ap
          (go_on lens (ring s.buffer s.buffer_size s.tail (left s)) (sent s (left s))
            (moved s (left s)))
          none_left

  earlier_call :
      len < left s
      → send_fragments lens (moved s (min (left s) len))
        ≡ some (message (moved s (min (left s) len)))
      → rest_of (min (left s) len) ≡ some (message s)
  earlier_call h ih =
      let m = min (left s) len in
      let size = s.buffer_size in
      let some_left : (left s - m == 0) ≡ false = ground arith in
      let l = left-moved s len v in
      let total : m + (left s - m) ≡ left s = omega arith in
      let bytes : ring s.buffer size s.tail m
            ++ ring s.buffer size (u64 (s.tail + m)) (left (moved s m))
          ≡ ring s.buffer size s.tail (left s) =
        ap (λ b. ring s.buffer size s.tail m ++ b)
          (ap (ring s.buffer size (u64 (s.tail + m))) l
            ∙ ring_mod s.buffer size (u64 (s.tail + m)) (s.tail + m) (left s - m)
                (u64-mod size (s.tail + m) v.size))
        ∙ sym (ring_add s.buffer size s.tail m (left s - m))
        ∙ ap (ring s.buffer size s.tail) total in
      let end : sent (moved s m) (left (moved s m)) ≡ sent s (left s) =
        ap (sent (moved s m)) l ∙ ap finished (moved-moved s m (left s - m) ∙ ap (moved s) total) in
      ap (go_on lens (ring s.buffer size s.tail m) (finished (moved s m)) (moved s m)) some_left
      ∙ ap (λ o. o >>= λ rest. some (ring s.buffer size s.tail m ++ rest.0, rest.1)) ih
      ∙ ap₂ (λ b e. some (b, e)) bytes end

-- What follows a call of the callback.
abbrev after_call : List ℕ → List ℕ × Bool × PerfStream → Option (List ℕ × PerfStream)
after_call lens r =
    if r.1
    then some (r.0, r.2)
    else (send_fragments lens r.2 >>= λ rest. some (r.0 ++ rest.0, rest.1))

-- The stream after the header of its message.
abbrev headed : PerfStream → PerfStream
headed s = record s { header_written = true; total_len = s.total_len + 8 }

-- What a call wrote, with the header before it.
abbrev header_before : ℕ → List ℕ × Bool × PerfStream → List ℕ × Bool × PerfStream
header_before id r = (message_header id ++ r.0, r.1, r.2)

-- A call on a message whose header is to be written.
abbrev with_header : PerfStream → ℕ → Bool → Option (List ℕ × Bool × PerfStream)
with_header s len enough =
    if enough then some (header_before s.id (read_ring (headed s) (len - 8))) else none

-- A call on any message.
abbrev a_call : PerfStream → ℕ → Bool → Bool → Option (List ℕ × Bool × PerfStream)
a_call s len enough written = if written then some (read_ring s len) else with_header s len enough

-- A message with its header before it.
abbrev after_header : ℕ → Option (List ℕ × PerfStream) → Option (List ℕ × PerfStream)
after_header id rest = rest >>= λ q. some (message_header id ++ q.0, q.1)

-- The rest of a message, after its header.
send_rest :
    (lens : List ℕ) (s : PerfStream)
    → IsRing s
    → s.header_written ≡ true
    → 0 < left s
    → left s ≤ room lens
    → send_fragments lens s ≡ some (message s)
unfolding send_fragments fragmented_perf_read room
send_rest [] s v w l r = absurd (omega arith)
send_rest (len ∷ lens) s v w l r =
    let m = min (left s) len in
    let read : fragmented_perf_read s len ≡ some (reads s m) =
      ap (a_call s len (ltb 8 len)) w ∙ ap some (read_ring_lem s len v) in
    ap (λ o. o >>= after_call lens) read ∙ elim (Bool-cases (ltb len (left s))) [
      | inl more ↦
          let lt = ltb→lt len (left s) more in
          let l' = left-moved s len v in
          earlier_call s len lens v lt (
            send_rest lens (moved s m) (moved-IsRing s m v) w (omega (arith, l', lt))
              (omega (arith, l', lt)))
      | inr last ↦ last_call s len lens v (ground arith)
    ]

-- How the rest goes on after a call.
abbrev ends :
    List ℕ → PerfStream → Option (List ℕ × PerfStream) → Bool → Option (List ℕ × PerfStream)
ends bytes s rest over = if over then some (bytes, s) else (rest >>= λ q. some (bytes ++ q.0, q.1))

ends_header :
    (id : ℕ) (bytes : List ℕ) (s : PerfStream) (rest : Option (List ℕ × PerfStream)) (over : Bool)
    → ends (message_header id ++ bytes) s rest over ≡ after_header id (ends bytes s rest over)
ends_header id bytes s rest true = refl
ends_header id bytes s none false = refl
ends_header id bytes s (some q) false = refl

send_header :
    (len : ℕ) (lens : List ℕ) (s : PerfStream)
    → s.header_written ≡ false
    → 8 < len
    → send_fragments (len ∷ lens) s
      ≡ after_header s.id (send_fragments ((len - 8) ∷ lens) (headed s))
unfolding send_fragments fragmented_perf_read
send_header len lens s w h =
    let r = read_ring (headed s) (len - 8) in
    ap (λ b. a_call s len (ltb 8 len) b >>= after_call lens) w
    ∙ ap (λ b. with_header s len b >>= after_call lens) (lt→ltb 8 len h)
    ∙ ends_header s.id r.0 r.2 (send_fragments lens r.2) r.1

-- What is pending when a flush starts.
abbrev pub pending : PerfStream → ℕ
pending s = taken (read_perf_head s) s.data_tail s.buffer_size

-- The start of a flush.
abbrev flushed : PerfStream → Bool → PerfStream
flushed s busy = if busy then s else record s {
  flushing = true;
  header_written = false;
  total_len = 0;
  head = read_perf_head s;
  tail = s.data_tail;
}

-- A flush of a stream with pending data sends, in fragments of any sizes that leave room for the
-- header and all the data, one message: the header and then each pending byte of the ring once,
-- in the order in which the kernel wrote them, across the end of the ring. It ends with the
-- kernel's tail at the head that was read, so that nothing of it is pending, with the stream no
-- longer flushing, and with the closing that was put off.
pub send_fragments-ring :
    (len : ℕ) (lens : List ℕ) (s : PerfStream)
    → IsSize s.buffer_size
    → length s.buffer ≡ s.buffer_size
    → s.data_tail < 2 ^ 64
    → s.flushing ≡ false
    → perf_stream_data_pending s ≡ true
    → 8 < len
    → 8 + pending s ≤ room (len ∷ lens)
    → (s' : PerfStream) × (send_fragments (len ∷ lens) (flush_perf_stream_samples s)
        ≡ some (message_header s.id ++ ring s.buffer s.buffer_size s.data_tail (pending s), s'))
      × (s'.data_tail ≡ u32 (s.data_tail + pending s))
      × (taken (read_perf_head s) (u64 (s.data_tail + pending s)) s.buffer_size ≡ 0)
      × (s'.flushing ≡ false)
      × (s'.closing ≡ (if s.pending_close then true else s.closing))
unfolding flush_perf_stream_samples perf_stream_data_pending room finished
send_fragments-ring len lens s size whole tail idle some_pending h r =
    let s0 = record s {
      flushing = true;
      header_written = true;
      total_len = 8;
      head = read_perf_head s;
      tail = s.data_tail;
    } in
    let v : IsRing s0 = record { size = size; whole = whole; head = omega arith; tail = tail } in
    let n = pending s in
    let positive : 0 < n = ground arith in
    let tail' : u32 (u64 (s.data_tail + n)) ≡ u32 (s.data_tail + n) = omega arith in
    let m : min n n ≡ n = omega arith in
    let none_left = left-moved s0 n v in
    let nothing : left (moved s0 n) ≡ 0 =
      ap (λ m. left (moved s0 m)) (sym m) ∙ none_left ∙ omega arith in
    (
      sent s0 n,
      ap (λ b. send_fragments (len ∷ lens) (flushed s b)) idle
          ∙ send_header len lens (record s0 { header_written = false; total_len = 0 }) refl h
          ∙ ap (after_header s.id)
              (send_rest ((len - 8) ∷ lens) s0 v refl positive (omega (arith, r, h))),
      tail',
      nothing,
      refl,
      refl,
    )
