-- ===== src/Server/Headers/Recorded.antt =====
-- What an update records of the new records, before the kernel overwrites the old ones.
use native.Mathlib.Nat.{mod-eq_of_lt}
use gputop.Base.{
  ℕ, zero, suc, ◌+◌, ◌-◌, ◌%◌, ◌^◌, ◌≤◌, ◌<◌, ◌≡◌, refl, ap, ap₂, ◌∙◌, arith, some, List, [], ◌∷◌,
  length, ltb, ◌==◌, ◌||◌, u32, u64, sub64, ◌>>=◌, Ensures, Ensures-of, Ensures-some, Ensures-bind,
  Ensures-if,
}
use gputop.Server.Flush.{taken}
use gputop.Server.Headers.{HeaderBuf, Recorder, add_records, update_header_offsets}
use gputop.Server.Headers.Queue.{IsQueue, queue, push, add_record-push}

-- The bytes of some records.
abbrev pub bytes : List ℕ → ℕ
bytes [] = 0
bytes (size ∷ sizes) = size + bytes sizes

-- The ring holds records of these sizes from `t` on, none of them across its end.
abbrev pub Holds : (ℕ → ℕ) → ℕ → ℕ → List ℕ → Type 0
Holds size_at buffer_size t [] = Unit
Holds size_at buffer_size t (size ∷ sizes) =
    (size_at (t % buffer_size) ≡ size)
    × (0 < size)
    × (t % buffer_size + size ≤ buffer_size)
    × Holds size_at buffer_size (t + size) sizes

-- The offsets of the records, pushed one after the other.
abbrev pub pushed : ℕ → ℕ → ℕ → List ℕ → List ℕ → List ℕ
pushed len buffer_size t [] q = q
pushed len buffer_size t (size ∷ sizes) q =
    pushed len buffer_size (t + size) sizes (push len q (t % buffer_size))

-- What is to be shown of the buffer after some records.
abbrev pub Recorded : ℕ → ℕ → List ℕ → HeaderBuf → HeaderBuf → Type 0
Recorded buffer_size t sizes buf buf' =
    IsQueue buf'
    × (queue buf' ≡ pushed buf.len buffer_size t sizes (queue buf))
    × (buf'.len ≡ buf.len)
    × (buf'.head ≡ buf.head + length sizes)

taken_lem :
    (head t buffer_size : ℕ)
    → t ≤ head
    → head < 2 ^ 32
    → head - t < buffer_size
    → taken head t buffer_size ≡ head - t
unfolding taken
taken_lem head t buffer_size le fits small =
    let e : sub64 head t ≡ head - t = omega (arith, le, fits) in
    ap (λ x. x % buffer_size) e ∙ mod-eq_of_lt small

add_records-Recorded :
    (sizes : List ℕ) (fuel : ℕ) (size_at : ℕ → ℕ) (buffer_size t : ℕ) (buf : HeaderBuf)
    → IsQueue buf
    → Holds size_at buffer_size t sizes
    → t + bytes sizes < 2 ^ 32
    → bytes sizes < buffer_size
    → bytes sizes < fuel
    → buf.head + length sizes < 2 ^ 32
    → Ensures
        (add_records fuel size_at buffer_size (t + bytes sizes) t buf)
        (Recorded buffer_size t sizes buf)
unfolding add_records
add_records-Recorded sizes zero size_at buffer_size t buf v h fits small enough room =
    absurd (omega arith)
add_records-Recorded [] (suc fuel) size_at buffer_size t buf v h fits small enough room =
    let e : taken (t + 0) t buffer_size ≡ 0 =
      taken_lem (t + 0) t buffer_size (omega arith) fits (omega (arith, small)) ∙ omega arith in
    Ensures-if (taken (t + 0) t buffer_size == 0)
      (λ _. Ensures-some buf (v, refl, refl, omega arith)) (λ f. absurd (ground (arith, e, f)))
add_records-Recorded (size ∷ sizes) (suc fuel) size_at buffer_size t buf v h fits small enough
      room =
    let left = size + bytes sizes in
    let e : taken (t + left) t buffer_size ≡ left =
      taken_lem (t + left) t buffer_size (omega arith) fits (omega (arith, small)) ∙ omega arith in
    let at = t % buffer_size in
    let perf_head = t + left in
    let next : u64 (t + size_at at) ≡ t + size = omega (arith, h.0, fits) in
    let end : perf_head ≡ t + size + bytes sizes = omega arith in
    Ensures-if (taken perf_head t buffer_size == 0) (λ z. absurd (ground (arith, e, z, h.1)))
      (λ _.
        Ensures-if ((size_at at == 0) || ltb (sub64 perf_head t) (size_at at))
          (λ z. absurd (ground (arith, z, h.0, h.1, fits)))
          (λ _.
            Ensures-bind
              (add_record-push buffer_size at (size_at at) buf v (omega (arith, room))
                (omega (arith, h.0, h.2)))
              (λ buf1 a.
                let ih =
                  add_records-Recorded sizes fuel size_at buffer_size (t + size) buf1 a.0 h.3
                    (omega (arith, fits)) (omega (arith, small)) (omega (arith, enough, h.1))
                    (omega (arith, a.3, room)) in
                let r = ih.holds in
                Ensures-of ih.result
                  (ap₂ (λ head p. add_records fuel size_at buffer_size head p buf1) end next
                    ∙ ih.runs)
                  (
                    r.0,
                    r.1 ∙ ap₂ (λ len q. pushed len buffer_size (t + size) sizes q) a.2 a.1,
                    r.2 ∙ a.2,
                    omega (arith, r.3, a.3),
                  ))))

-- An update of a recorder in whose ring no record crossed the end yet, with new records that do not
-- cross it either and that are fewer bytes than the ring, ends, while the position of the kernel and
-- the number of records stay below 2^32: each record is pushed on the queue of offsets, where the
-- oldest offset gives way when the queue is full, and the kernel gets all of them back.
pub update_header_offsets-Recorded :
    (size_at : ℕ → ℕ) (s : Recorder) (size : ℕ) (sizes : List ℕ)
    → IsQueue s.header_buf
    → s.data_head ≡ s.data_tail + bytes (size ∷ sizes)
    → s.data_head < 2 ^ 32
    → bytes (size ∷ sizes) < s.buffer_size
    → Holds size_at s.buffer_size s.data_tail (size ∷ sizes)
    → s.header_buf.head + length (size ∷ sizes) < 2 ^ 32
    → Ensures (update_header_offsets size_at s) (λ s'.
      Recorded s.buffer_size s.data_tail (size ∷ sizes) s.header_buf s'.header_buf
      × (s'.data_tail ≡ s.data_head))
unfolding update_header_offsets
update_header_offsets-Recorded size_at s size sizes v new fits small h room =
    let perf_head : u32 s.data_head ≡ s.data_tail + bytes (size ∷ sizes) =
      omega (arith, fits, new) in
    let fuel = sub64 (u32 s.data_head) s.data_tail + 1 in
    let enough : bytes (size ∷ sizes) < fuel = omega (arith, perf_head, fits, new) in
    let r =
      add_records-Recorded (size ∷ sizes) fuel size_at s.buffer_size s.data_tail s.header_buf v h
        (omega (arith, fits, new)) small enough room in
    Ensures-if (u32 s.data_head == s.data_tail) (λ z. absurd (ground (arith, z, perf_head, h.1)))
      (λ _.
        Ensures-of (record s { data_tail = u32 s.data_head; header_buf = r.result })
          (ap (λ o. o >>= λ buf. some (record s { data_tail = u32 s.data_head; header_buf = buf }))
            (ap (λ head. add_records fuel size_at s.buffer_size head s.data_tail s.header_buf)
                perf_head
              ∙ r.runs))
          (r.holds, omega (arith, fits)))
