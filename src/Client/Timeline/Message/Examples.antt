-- ===== src/Client/Timeline/Message/Examples.antt =====
-- Two records of a processor, the first across the end of the server's ring.
use gputop.Base.{
  ℕ, ap, inr, take, ◌≡◌, ◌≢◌, ◌^◌, refl, arith, true, false, none, some, List, Option, [], ◌∷◌,
  ◌++◌, Bytes, Ensures, All, ◌<◌, replicate, ◌==◌, if◌then◌else◌,
}
use gputop.Base.Table.{Table}
use gputop.Server.Flush.{
  PerfStream, taken, flush_perf_stream_samples, send_fragments, perf_stream_data_pending,
}
use gputop.Server.Flush.Ring.{ring}
use gputop.Server.Flush.Message.{room}
use gputop.Client.Timeline.{add_tracepoint, add_sorted, trim, unlink, unlink_all}
use gputop.Client.Timeline.Ordered.{Ordered}
use gputop.Client.Timeline.Message.{
  le, TpStream, Received, Processes, was_freed, add_received, point_of,
}
use gputop.Client.Timeline.Message.Added.{IsBytes, IsOrdered, HasFields, IsSafe}
use gputop.Client.Timeline.Message.Records.{IsRecord, concat, AllAdded}
use gputop.Client.Timeline.Message.Flushed.{receive, flushed-AllAdded}

abbrev update : {V : Type 0} → (ℕ → V) → ℕ → V → ℕ → V
update t k v j = if k == j then v else t j

update_self : {V : Type 0} (t : ℕ → V) (k : ℕ) (v : V) → update t k v k ≡ v
update_self t k v = ground arith

update_ne : {V : Type 0} (t : ℕ → V) (k j : ℕ) (v : V) → k ≢ j → update t k v j ≡ t j
update_ne t k j v ne = ground arith

abbrev functions : Table ℕ TpStream
functions = record {
  T = ℕ → Option TpStream;
  empty = λ _. none;
  search = λ t k. t k;
  insert = λ t k v. update t k (some v);
  remove = λ t k. update t k none;
  search-empty = λ k. refl;
  search-insert_self = λ t k v. update_self t k (some v);
  search-insert_ne = λ t k j v ne. update_ne t k j (some v) ne;
  search-remove_self = λ t k. update_self t k none;
  search-remove_ne = λ t k j ne. update_ne t k j none ne;
}

-- A record of 24 bytes, with a pid in its data.
abbrev record_at : ℕ → ℕ → Bytes
record_at time pid =
    9 ∷ 0 ∷ 0 ∷ 0 ∷ 0 ∷ 0 ∷ 24 ∷ 0 ∷ time ∷ 0 ∷ 0 ∷ 0 ∷ 0 ∷ 0 ∷ 0 ∷ 0 ∷ 4 ∷ 0 ∷ 0 ∷ 0 ∷ pid ∷ 0 ∷ 0
    ∷ 0 ∷ []

record_at-IsRecord : (time pid : ℕ) → IsRecord (record_at time pid)
unfolding le
record_at-IsRecord time pid = record { size = refl; whole = omega arith }

record_at-IsBytes : (time pid : ℕ) → time < 256 → pid < 256 → IsBytes (record_at time pid)
record_at-IsBytes time pid h k = (
  omega arith,
  (
    z,
    (
      z,
      (
        z,
        (
          z,
          (
            z,
            (
              omega arith,
              (
                z,
                (
                  h,
                  (
                    z,
                    (
                      z,
                      (z, (z, (z, (z, (z, (omega arith, (z, (z, (z, (k, (z, (z, (z, tt))))))))))))),
                    ),
                  ),
                ),
              ),
            ),
          ),
        ),
      ),
    ),
  ),
)
  where
    z : 0 < 256
    z = omega arith

abbrev two_records : List Bytes
two_records = record_at 7 33 ∷ record_at 5 44 ∷ []

two_records-IsRecord : All IsRecord two_records
two_records-IsRecord = (record_at-IsRecord 7 33, (record_at-IsRecord 5 44, tt))

two_records-IsBytes : All IsBytes two_records
two_records-IsBytes = (
  record_at-IsBytes 7 33 (omega arith) (omega arith),
  (record_at-IsBytes 5 44 (omega arith) (omega arith), tt),
)

-- A stream whose records tell the process at the start of their data.
abbrev cpu1 : TpStream
cpu1 = record { tp = 0; cpu = 1; process_field = some 0; hw_id_field = none }

offset_of : ℕ → Option ℕ → ℕ
offset_of n none = n
offset_of n (some o) = o

record_at-HasFields : (time pid : ℕ) → HasFields cpu1 (record_at time pid)
unfolding offset_of
record_at-HasFields time pid = record {
  process = λ o e. let zero_offset : 0 ≡ o = ap (offset_of 0) e in omega (arith, zero_offset);
  hw_id = λ o e. absurd (cc e);
}

two_records-HasFields : All (HasFields cpu1) two_records
two_records-HasFields = (record_at-HasFields 7 33, (record_at-HasFields 5 44, tt))

abbrev streams : ℕ → Option TpStream
streams = update (λ _. none) 300 (some cpu1)

abbrev none_known : Processes
none_known = record { pids = []; of_hw_id = λ j. none; contexts = λ j. none }

abbrev none_yet : Received
none_yet = record {
  timeline = record { points = []; tp_points = λ tp. [] };
  next = 0;
  freed = [];
  processes = none_known;
}

none_yet-IsOrdered : IsOrdered none_yet.timeline.points
unfolding Ordered
none_yet-IsOrdered = record { order = tt; words = tt }

none_yet-IsSafe : IsSafe 0 100 cpu1 two_records none_yet.timeline.points
unfolding le
none_yet-IsSafe = inr (tt, ((omega arith, omega arith), ((omega arith, omega arith), tt)))

-- A record that comes more than the window after it was made: the time line ends 101 later than its
-- time. Its point is freed, and then its process is read from it.
abbrev up_to_106 : Received
up_to_106 = record none_yet {
  timeline = record {
    points = record { serial = 9; tp = 0; cpu = 1; time = 106; payload = [] } ∷ [];
    tp_points = λ tp. [];
  };
  next = 10;
}

late_record : add_received 100 cpu1 (record_at 5 44) up_to_106 ≡ none
unfolding add_received point_of le add_tracepoint add_sorted trim unlink unlink_all was_freed
late_record = refl

-- The ring of the server with the two records, the first from its byte 44 on and across its end.
abbrev perf : PerfStream
perf = record {
  id = 300;
  buffer_size = 64;
  buffer = 33 ∷ 0 ∷ 0 ∷ 0 ∷ (record_at 5 44 ++ (replicate 16 0 ++ take 20 (record_at 7 33)));
  data_head = 92;
  data_tail = 44;
  header_written = true;
  total_len = 99;
  head = 0;
  tail = 0;
  flushing = false;
  pending_close = false;
  closing = false;
}

flushed-AllAdded_example :
    Ensures (send_fragments (20 ∷ 20 ∷ 20 ∷ []) (flush_perf_stream_samples perf)) (λ sent.
      Ensures
        (receive functions (λ bytes r. some r) (λ id bytes r. some r) streams 100 sent.0 none_yet)
        (AllAdded cpu1 two_records none_yet))
unfolding taken perf_stream_data_pending room concat ring
flushed-AllAdded_example =
    flushed-AllAdded functions (λ bytes r. some r) (λ id bytes r. some r) streams 0 100 20
      (20 ∷ 20 ∷ []) perf cpu1 two_records none_yet
      (record { positive = omega arith; factor = 2 ^ 58; divides = refl }) refl (omega arith) refl
      refl (omega arith) (omega arith) (omega arith) refl refl two_records-IsRecord
      two_records-IsBytes two_records-HasFields none_yet-IsOrdered none_yet-IsSafe
