-- ===== src/Server/Headers.antt =====
-- The offsets of the records that a perf stream in flight-recorder mode still holds,
-- gputop_perf_update_header_offsets of server/gputop-perf.c. The sizes that stand in the headers of
-- the records are read by an argument, the ring of the kernel. `none` is a loop that does not
-- end, or a remainder by a length of 0.
pub mod Queue
pub mod Recorded
mod Examples
use gputop.Base.{
  ℕ, zero, suc, ◌+◌, ◌%◌, ◌^◌, Bool, true, false, ◌||◌, Option, none, some, List, get_or, set, ltb,
  ◌==◌, if◌then◌else◌, u32, u64, sub32, sub64, ◌>>=◌,
}
use gputop.Server.Flush.{taken}

-- `struct gputop_perf_header_buf`.
pub record HeaderBuf : Type 0 where
  pub offsets : List ℕ
  pub len : ℕ
  pub head : ℕ
  pub tail : ℕ
  pub full : Bool

-- The stream: the buffer of offsets and the two positions of the kernel.
pub record Recorder : Type 0 where
  pub buffer_size : ℕ
  pub data_head : ℕ
  pub data_tail : ℕ
  pub header_buf : HeaderBuf

-- The `while (1)` over the records that the new one, which ends at `end`, tramples. After as many
-- rounds as there are offsets it meets the same offsets again and does not end.
unfoldable pub skip_eaten : ℕ → ℕ → ℕ → ℕ → HeaderBuf → ℕ → Option ℕ
skip_eaten zero buffer_size perf_offset end buf buf_tail = none
skip_eaten (suc n) buffer_size perf_offset end buf buf_tail =
    let offset = get_or buf.offsets (buf_tail % buf.len) 0 in
    let ahead = if ltb offset perf_offset then u32 (offset + buffer_size) else offset in
    let rest = skip_eaten n buffer_size perf_offset end buf (u32 (buf_tail + 1)) in
    if ltb end ahead then some buf_tail else rest

-- A record of `size` bytes at `perf_offset`.
unfoldable pub add_record : ℕ → ℕ → ℕ → HeaderBuf → Option HeaderBuf
add_record buffer_size perf_offset size buf =
    let full = buf.full || ltb buffer_size (perf_offset + size) in
    let room = if sub32 buf.head buf.tail == buf.len then u32 (buf.tail + 1) else buf.tail in
    (if buf.len == 0
      then none
      else if full
      then skip_eaten buf.len buffer_size perf_offset (perf_offset + size) buf room
      else some room)
    >>= λ buf_tail. some (record buf {
      full = full;
      tail = buf_tail;
      offsets = set buf.offsets (buf.head % buf.len) perf_offset;
      head = u32 (buf.head + 1);
    })

-- The loop over the new records, with `fuel` rounds at most.
unfoldable pub add_records : ℕ → (ℕ → ℕ) → ℕ → ℕ → ℕ → HeaderBuf → Option HeaderBuf
add_records zero size_at buffer_size perf_head perf_tail buf = none
add_records (suc fuel) size_at buffer_size perf_head perf_tail buf =
    let perf_offset = perf_tail % buffer_size in
    let size = size_at perf_offset in
    let rest =
      add_record buffer_size perf_offset size buf
      >>= add_records fuel size_at buffer_size perf_head (u64 (perf_tail + size)) in
    if taken perf_head perf_tail buffer_size == 0
    then some buf
    else if (size == 0) || ltb (sub64 perf_head perf_tail) size
    then some buf
    else rest

-- `gputop_perf_update_header_offsets`. Each round takes at least a byte of what is between the two
-- positions.
unfoldable pub update_header_offsets : (ℕ → ℕ) → Recorder → Option Recorder
update_header_offsets size_at s =
    let perf_head = u32 s.data_head in
    let fuel = sub64 perf_head s.data_tail + 1 in
    let updated =
      add_records fuel size_at s.buffer_size perf_head s.data_tail s.header_buf >>= λ buf.
      some (record s { data_tail = perf_head; header_buf = buf }) in
    if perf_head == s.data_tail then some s else updated

-- `update_perf_head_pointers` of server/gputop-server.c: the stream, and the offset from which the
-- message that announces how full the ring is takes its percentage.
unfoldable pub update_perf_head_pointers : (ℕ → ℕ) → Recorder → Option (Recorder × Option ℕ)
update_perf_head_pointers size_at s0 = update_header_offsets size_at s0 >>= λ s.
    let buf = s.header_buf in
    if buf.full
    then some (s, none)
    else if buf.len == 0
    then none
    else some (s, some (get_or buf.offsets (sub32 buf.head 1 % buf.len) 0))
