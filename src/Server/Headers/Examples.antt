-- ===== src/Server/Headers/Examples.antt =====
-- Records of a ring of 4096 bytes, and a queue of three offsets.
use gputop.Base.{ℕ, ◌≡◌, refl, arith, true, false, none, [], ◌∷◌, Ensures}
use gputop.Server.Flush.{taken}
use gputop.Server.Headers.{
  HeaderBuf, Recorder, skip_eaten, add_record, add_records, update_header_offsets,
}
use gputop.Server.Headers.Queue.{queue, entries}
use gputop.Server.Headers.Recorded.{Recorded, update_header_offsets-Recorded}

abbrev buf : HeaderBuf
buf = record { offsets = 0 ∷ 24 ∷ 40 ∷ []; len = 3; head = 3; tail = 1; full = false }

abbrev recorder : Recorder
recorder = record { buffer_size = 4096; data_head = 128; data_tail = 64; header_buf = buf }

-- Records of 16 bytes from byte 64 on.
abbrev size_at : ℕ → ℕ
size_at offset = 16

queue_example : queue buf ≡ 24 ∷ 40 ∷ []
unfolding entries
queue_example = refl

update_header_offsets-Recorded_example :
    Ensures
      (update_header_offsets size_at recorder)
      (λ s'. Recorded 4096 64 (16 ∷ 16 ∷ 16 ∷ 16 ∷ []) buf s'.header_buf × (s'.data_tail ≡ 128))
update_header_offsets-Recorded_example =
    update_header_offsets-Recorded size_at recorder 16 (16 ∷ 16 ∷ 16 ∷ [])
      (record {
        positive = omega arith;
        small = omega arith;
        whole = refl;
        order = omega arith;
        bounded = omega arith;
        going = refl;
      })
      refl (omega arith) (omega arith)
      (
        refl,
        omega arith,
        omega arith,
        (
          refl,
          omega arith,
          omega arith,
          (refl, omega arith, omega arith, (refl, omega arith, omega arith, tt)),
        ),
      )
      (omega arith)

-- A record that tramples every record whose offset is known: the loop over them does not end.
all_eaten :
    update_header_offsets
      (λ offset. 40)
      (record {
        buffer_size = 64;
        data_head = 104;
        data_tail = 64;
        header_buf = record { offsets = 0 ∷ 16 ∷ []; len = 2; head = 2; tail = 0; full = true };
      })
    ≡ none
unfolding update_header_offsets add_records add_record skip_eaten taken
all_eaten = refl
