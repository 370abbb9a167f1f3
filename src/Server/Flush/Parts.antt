-- ===== src/Server/Flush/Parts.antt =====
-- The two copies out of the ring: up to its end, and at its start.
use gputop.Base.{
  ℕ, ◌+◌, ◌-◌, ◌%◌, ◌^◌, ◌≤◌, ◌<◌, ◌≡◌, inl, inr, sym, ap, ◌∙◌, arith, ltb, length, min, u64,
  Bool-cases,
}
use native.Mathlib.Nat.{mod-lt}
use gputop.Server.Flush.{PerfStream, taken, first_len}
use gputop.Server.Flush.Ring.{IsSize, taken-IsDistance, position_inside, position_end}

-- A stream whose ring is whole, and whose positions fit into 64 bits.
pub record IsRing (s : PerfStream) : Type 0 where
  pub size : IsSize s.buffer_size
  pub whole : length s.buffer ≡ s.buffer_size
  pub head : s.head < 2 ^ 64
  pub tail : s.tail < 2 ^ 64

abbrev pub left : PerfStream → ℕ
left s = taken s.head s.tail s.buffer_size

-- The stream after a number of bytes, before and at the end of the message.
abbrev pub moved : PerfStream → ℕ → PerfStream
moved s m = record s { tail = u64 (s.tail + m); total_len = s.total_len + m }

-- The two copies: `a` bytes up to the end of the ring and `b` at its start.
pub record IsSplit (s : PerfStream) (len a b : ℕ) : Type 0 where
  pub all : a + b ≡ min (left s) len
  pub first : s.tail % s.buffer_size + a ≤ s.buffer_size
  pub second : u64 (s.tail + a) % s.buffer_size + b ≤ s.buffer_size
  pub rest : left (moved s (a + b)) ≡ left s - (a + b)

pub u64-lt : (x : ℕ) → u64 x < 2 ^ 64
u64-lt x = omega arith

pub u64-u64 : (x b : ℕ) → u64 (u64 x + b) ≡ u64 (x + b)
u64-u64 x b = omega arith

module _ (s : PerfStream) (len : ℕ) (v : IsRing s) where
  -- The data stop before the end of the ring.
  straight-IsSplit :
      s.tail % s.buffer_size ≤ s.head % s.buffer_size
      → IsSplit s len 0 (min (taken s.head (u64 (s.tail + 0)) s.buffer_size) (len - 0))
  straight-IsSplit w =
      let size = s.buffer_size in
      let at = taken-IsDistance size s.head s.tail v.size v.head v.tail in
      let n = at.straight w in
      let inside = mod-lt s.tail v.size.positive in
      let inside' = mod-lt s.head v.size.positive in
      let p1 = position_inside size s.tail 0 v.size (omega (arith, inside)) in
      let at1 =
        taken-IsDistance size s.head (u64 (s.tail + 0)) v.size v.head (u64-lt (s.tail + 0)) in
      let n1 = at1.straight (omega (arith, p1, w)) in
      let b = min (taken s.head (u64 (s.tail + 0)) size) (len - 0) in
      let p2 =
        position_inside size s.tail (0 + b) v.size (omega (arith, n1, p1, inside, inside', w)) in
      let at2 =
        taken-IsDistance size s.head (u64 (s.tail + (0 + b))) v.size v.head
          (u64-lt (s.tail + (0 + b))) in
      let n2 = at2.straight (omega (arith, p2, n1, p1, w)) in
      record {
        all = omega (arith, n, n1, p1);
        first = omega (arith, inside);
        second = omega (arith, n1, p1, inside, inside', w);
        rest = omega (arith, n, n1, n2, p1, p2, w);
      }

  -- There is no room for all the data up to the end.
  short-IsSplit :
      s.head % s.buffer_size < s.tail % s.buffer_size
      → len < s.buffer_size - s.tail % s.buffer_size
      → IsSplit s len (min (s.buffer_size - s.tail % s.buffer_size) len) (
          min
            (taken s.head
              (u64 (s.tail + min (s.buffer_size - s.tail % s.buffer_size) len))
              s.buffer_size)
            (len - min (s.buffer_size - s.tail % s.buffer_size) len))
  short-IsSplit w short =
      let size = s.buffer_size in
      let at = taken-IsDistance size s.head s.tail v.size v.head v.tail in
      let n = at.wrapped w in
      let inside = mod-lt s.tail v.size.positive in
      let a = min (size - s.tail % size) len in
      let p1 = position_inside size s.tail a v.size (omega (arith, inside)) in
      let b = min (taken s.head (u64 (s.tail + a)) size) (len - a) in
      let p2 = position_inside size s.tail (a + b) v.size (omega (arith, inside)) in
      let at2 =
        taken-IsDistance size s.head (u64 (s.tail + (a + b))) v.size v.head
          (u64-lt (s.tail + (a + b))) in
      let n2 = at2.wrapped (omega (arith, p2, w)) in
      record {
        all = omega (arith, n);
        first = omega (arith, inside);
        second = omega (arith, p1);
        rest = omega (arith, n, n2, p2);
      }

  -- The data go on at the start of the ring.
  wrapped-IsSplit :
      s.head % s.buffer_size < s.tail % s.buffer_size
      → s.buffer_size - s.tail % s.buffer_size ≤ len
      → IsSplit s len (min (s.buffer_size - s.tail % s.buffer_size) len) (
          min
            (taken s.head
              (u64 (s.tail + min (s.buffer_size - s.tail % s.buffer_size) len))
              s.buffer_size)
            (len - min (s.buffer_size - s.tail % s.buffer_size) len))
  wrapped-IsSplit w long =
      let size = s.buffer_size in
      let at = taken-IsDistance size s.head s.tail v.size v.head v.tail in
      let n = at.wrapped w in
      let inside = mod-lt s.tail v.size.positive in
      let inside' = mod-lt s.head v.size.positive in
      let a = min (size - s.tail % size) len in
      let p1 = position_end size s.tail a v.size (omega (arith, inside)) in
      let t1 = u64 (s.tail + a) in
      let at1 = taken-IsDistance size s.head t1 v.size v.head (u64-lt (s.tail + a)) in
      let n1 = at1.straight (omega (arith, p1)) in
      let b = min (taken s.head t1 size) (len - a) in
      let p2 = position_inside size t1 b v.size (omega (arith, n1, p1, inside')) in
      let same = u64-u64 (s.tail + a) b in
      let at2 = taken-IsDistance size s.head (u64 (t1 + b)) v.size v.head (u64-lt (t1 + b)) in
      let n2 = at2.straight (omega (arith, p2, p1, n1)) in
      let e : u64 (t1 + b) ≡ u64 (s.tail + (a + b)) = omega (arith, same) in
      record {
        all = omega (arith, n, n1, p1);
        first = omega (arith, inside);
        second = omega (arith, n1, p1, inside');
        rest = ap (λ x. taken s.head x size) (sym e) ∙ omega (arith, n, n1, n2, p1, p2);
      }

pub read-IsSplit :
    (s : PerfStream) (len : ℕ)
    → IsRing s
    → IsSplit s len
        (first_len s len)
        (min (taken s.head (u64 (s.tail + first_len s len)) s.buffer_size) (len - first_len s len))
unfolding first_len
read-IsSplit s len v = elim (Bool-cases (ltb (s.head % s.buffer_size) (s.tail % s.buffer_size))) [
  | inr n ↦ rw n (straight-IsSplit s len v (ground arith))
  | inl w ↦ elim (Bool-cases (ltb len (s.buffer_size - s.tail % s.buffer_size))) [
    | inl short ↦ rw w (short-IsSplit s len v (ground arith) (ground arith))
    | inr long ↦ rw w (wrapped-IsSplit s len v (ground arith) (ground arith))
  ]
]
