-- ===== src/Client/Timeline/Message.antt =====
-- The messages of the server and the records of a tracepoint stream in them:
-- gputop_client_context_handle_data and handle_perf_data of lib/gputop-client-context.c. `none` is
-- a read behind the end of a message or of a record, or of a point that was freed.
pub mod Added
pub mod Records
pub mod Flushed
mod Examples
use gputop.Base.{
  ℕ, zero, suc, ◌+◌, ◌*◌, Bool, true, false, ◌||◌, Option, none, some, List, [], ◌∷◌, ◌++◌, Bytes,
  length, get_or, drop, ltb, ◌==◌, if◌then◌else◌, read, maybe, ◌>>=◌,
}
use gputop.Base.Table.{Table}
use gputop.Client.Timeline.{Point, Timeline, add_tracepoint}

-- The number that `n` bytes from `off` on make, the lowest first.
unfoldable pub le : ℕ → Bytes → ℕ → ℕ
le zero mem off = 0
le (suc n) mem off = get_or mem off 0 + 256 * le n mem (off + 1)

-- `struct gputop_perf_tracepoint_stream`, and of its tracepoint the offsets of the fields that tell
-- the process and the hardware context of a record, when it has these fields.
pub record TpStream : Type 0 where
  pub tp : ℕ
  pub cpu : ℕ
  pub process_field : Option ℕ
  pub hw_id_field : Option ℕ

-- `process_infos`, with a pid for a process, of each of which the server is asked when it is met
-- first; the tables `hw_id_to_process_table` and `hw_contexts_table`, the latter with the process
-- of a context. The names that are made of these are left out.
pub record Processes : Type 0 where
  pub pids : List ℕ
  pub of_hw_id : ℕ → Option ℕ
  pub contexts : ℕ → Option (Option ℕ)

-- The time line, the serial number of the next point, the points that were freed and the processes.
pub record Received : Type 0 where
  pub timeline : Timeline
  pub next : ℕ
  pub freed : List Point
  pub processes : Processes

-- The point that `add_tracepoint_stream_data` makes of the bytes of a record.
unfoldable pub point_of : TpStream → ℕ → Bytes → Point
point_of stream serial bytes = record {
  serial = serial;
  tp = stream.tp;
  cpu = stream.cpu;
  time = le 8 bytes 8;
  payload = bytes;
}

-- `get_process_info` of a pid that is not 0.
unfoldable pub get_process_info : ℕ → Processes → Processes
get_process_info pid p = if has pid p.pids then p else record p { pids = p.pids ++ (pid ∷ []) }
  where
    has : ℕ → List ℕ → Bool
    has pid [] = false
    has pid (q ∷ qs) = (q == pid) || has pid qs

-- The process of a hardware context, in both tables.
unfoldable pub assign_process : ℕ → ℕ → Processes → Processes
assign_process hw_id pid p = record p {
  of_hw_id = λ j. if j == hw_id then some pid else p.of_hw_id j;
  contexts =
      λ j. if j == hw_id then maybe (p.contexts j) none (λ _. some (some pid)) else p.contexts j;
}

-- A field of 32 bits, of the data behind the 20 bytes of `struct gputop_perf_data_tracepoint`.
unfoldable pub field32 : Bytes → ℕ → Option ℕ
field32 bytes offset = read bytes (20 + offset) 4 >>= λ word. some (le 4 word 0)

-- The end of `add_tracepoint_stream_data`, with the offsets of the two fields.
unfoldable pub update_process : ℕ → Option ℕ → Bytes → Processes → Option Processes
update_process process_field hw_id_field bytes p = field32 bytes process_field >>= λ pid.
    let known = get_process_info pid p in
    if pid == 0
    then some p
    else maybe hw_id_field (some known)
        (λ offset. field32 bytes offset >>= λ hw_id. some (assign_process hw_id pid known))

-- Whether a point was freed.
unfoldable pub was_freed : ℕ → List Point → Bool
was_freed serial [] = false
was_freed serial (p ∷ ps) = (p.serial == serial) || was_freed serial ps

-- `add_tracepoint_stream_data` of a record. The fields are read from the point, which may be freed.
unfoldable pub add_received : ℕ → TpStream → Bytes → Received → Option Received
add_received max_length stream bytes r =
    let added = add_tracepoint max_length r.timeline (point_of stream r.next bytes) in
    let r1 = record r { timeline = added.0; next = r.next + 1; freed = added.1 ++ r.freed } in
    maybe stream.process_field (some r1) (λ offset.
      if was_freed r.next added.1
      then none
      else (update_process offset stream.hw_id_field bytes r.processes >>= λ processes.
          some (record r1 { processes = processes })))

-- The loop of `handle_perf_data`. The time is read behind the end of a record of less than 16 bytes.
unfoldable pub handle_records : ℕ → ℕ → TpStream → Bytes → Received → Option Received
handle_records zero max_length stream bytes r = none
handle_records (suc n) max_length stream bytes r =
    let size = le 2 bytes 6 in
    let rest = read bytes 0 size >>= λ entry. add_received max_length stream entry r >>= λ r1.
    handle_records n max_length stream (drop size bytes) r1 in
    if length bytes == 0
    then some r
    else if ltb (length bytes) 8
    then none
    else if ltb size 16
    then none
    else rest

module _ (S : Table ℕ TpStream) where
  -- `handle_perf_data`. A round takes 16 bytes at least.
  unfoldable pub handle_perf_data : S.T → ℕ → ℕ → Bytes → Received → Option Received
  handle_perf_data table max_length stream_id bytes r =
      maybe (S.search table stream_id) (some r)
        (λ stream. handle_records (suc (length bytes)) max_length stream bytes r)

-- `gputop_client_context_handle_data`, with what handles the three kinds of messages.
unfoldable pub handle_data :
    {C : Type 0}
    → (perf : ℕ → Bytes → C → Option C) (protobuf : Bytes → C → Option C)
    → (i915_perf : ℕ → Bytes → C → Option C) → Bytes
    → C
    → Option C
handle_data perf protobuf i915_perf payload ctx =
    let kind = get_or payload 0 0 in
    let bytes = drop 8 payload in
    let id = le 4 payload 4 in
    let short = ltb (length payload) 8 in
    if length payload == 0
    then none
    else if kind == 1
    then (if short then none else perf id bytes ctx)
    else if kind == 2
    then (if short then none else protobuf bytes ctx)
    else if kind == 3
    then (if short then none else i915_perf id bytes ctx)
    else some ctx
