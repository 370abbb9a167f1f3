-- ===== src/Server/Flush/Fragments.antt =====
-- What one call of fragmented_perf_read_cb reads from the ring.
use gputop.Base.{
  ℕ, ◌+◌, ◌-◌, ◌%◌, ◌≡◌, sym, ap, ap₂, ◌∙◌, arith, Bool, List, ◌++◌, ◌==◌, if◌then◌else◌, min, u64,
}
use gputop.Server.Flush.{PerfStream, taken, copy, first_len, finished, read_ring}
use gputop.Server.Flush.Ring.{ring, u64-mod, ring_mod, ring_add, copy_ring}
use gputop.Server.Flush.Parts.{IsRing, left, moved, IsSplit, read-IsSplit, u64-lt, u64-u64}

abbrev outcome : PerfStream → List ℕ → ℕ → ℕ → ℕ → List ℕ × Bool × PerfStream
outcome s bytes tail n rest =
    let s2 = record s { tail = tail; total_len = s.total_len + n } in
    (bytes, rest == 0, if rest == 0 then finished s2 else s2)

copies_ring :
    (s : PerfStream) (len a b : ℕ)
    → IsRing s
    → IsSplit s len a b
    → copy s (s.tail % s.buffer_size) a ++ copy s (u64 (s.tail + a) % s.buffer_size) b
      ≡ ring s.buffer s.buffer_size s.tail (min (left s) len)
copies_ring s len a b v p =
    let size = s.buffer_size in
    ap₂ ◌++◌ (copy_ring s.buffer size s.tail a v.size.positive v.whole p.first) (
      copy_ring s.buffer size (u64 (s.tail + a)) b v.size.positive v.whole p.second
      ∙ ring_mod s.buffer size (u64 (s.tail + a)) (s.tail + a) b (u64-mod size (s.tail + a) v.size))
    ∙ sym (ring_add s.buffer size s.tail a b)
    ∙ ap (ring s.buffer size s.tail) p.all

-- What one call reads.
abbrev pub reads : PerfStream → ℕ → List ℕ × Bool × PerfStream
reads s m = outcome s (ring s.buffer s.buffer_size s.tail m) (u64 (s.tail + m)) m (left s - m)

pub read_ring_lem :
    (s : PerfStream) (len : ℕ) → IsRing s → read_ring s len ≡ reads s (min (left s) len)
unfolding read_ring
read_ring_lem s len v =
    let a = first_len s len in
    let b = min (taken s.head (u64 (s.tail + a)) s.buffer_size) (len - a) in
    let p = read-IsSplit s len v in
    let bytes = copy s (s.tail % s.buffer_size) a ++ copy s (u64 (s.tail + a) % s.buffer_size) b in
    let tail2 = u64 (u64 (s.tail + a) + b) in
    let e : tail2 ≡ u64 (s.tail + (a + b)) = u64-u64 (s.tail + a) b ∙ ap u64 (omega arith) in
    ap (λ bytes. outcome s bytes tail2 (a + b) (taken s.head tail2 s.buffer_size))
      (copies_ring s len a b v p)
    ∙ ap
        (λ t.
          outcome s (ring s.buffer s.buffer_size s.tail (min (left s) len)) t (a + b)
            (taken s.head t s.buffer_size))
        e
    ∙ ap
        (λ rest.
          outcome s (ring s.buffer s.buffer_size s.tail (min (left s) len)) (u64 (s.tail + (a + b)))
            (a + b) rest)
        p.rest
    ∙ ap
        (λ m.
          outcome s (ring s.buffer s.buffer_size s.tail (min (left s) len)) (u64 (s.tail + m)) m
            (left s - m))
        p.all

-- What is left after a call is a ring too.
pub moved-IsRing : (s : PerfStream) (m : ℕ) → IsRing s → IsRing (moved s m)
moved-IsRing s m v = record {
  size = v.size;
  whole = v.whole;
  head = v.head;
  tail = u64-lt (s.tail + m);
}

pub left-moved :
    (s : PerfStream) (len : ℕ)
    → IsRing s
    → left (moved s (min (left s) len)) ≡ left s - min (left s) len
left-moved s len v =
    let p = read-IsSplit s len v in
    ap (λ m. left (moved s m)) (sym p.all) ∙ p.rest ∙ ap (λ m. left s - m) p.all

-- The stream after the whole message.
abbrev pub sent : PerfStream → ℕ → PerfStream
sent s n = finished (moved s n)

pub moved-moved : (s : PerfStream) (a b : ℕ) → moved (moved s a) b ≡ moved s (a + b)
moved-moved s a b =
    let t : u64 (u64 (s.tail + a) + b) ≡ u64 (s.tail + (a + b)) =
      u64-u64 (s.tail + a) b ∙ ap u64 (omega arith) in
    let n : s.total_len + a + b ≡ s.total_len + (a + b) = omega arith in
    ap₂ (λ t n. record s { tail = t; total_len = n }) t n
