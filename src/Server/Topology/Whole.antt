-- ===== src/Server/Topology/Whole.antt =====
-- The loops over `eus_mask` return, and what the bits of a mask say of it.
use native.Mathlib.Nat.{mul-le-mul_right}
use gputop.Base.{
  ℕ, zero, suc, ◌+◌, ◌-◌, ◌*◌, ◌/◌, ◌%◌, ◌^◌, ◌≤◌, ◌<◌, ◌≡◌, refl, ap, ◌∙◌, arith, List, some,
  length, get_or, set, replicate, ◌==◌, length-set, Ensures, Ensures-some, Ensures-of, Ensures-if,
  Bool-cases, inl, inr, ==_iff, ◌>>=◌,
}
use gputop.Client.Topology.{ones, bytes_for, bit_set}
use gputop.Server.Topology.{put, byte_of, unit_byte, fill_eus, popcount32}
use gputop.Server.Topology.Written.{for_range-Ensures}

-- What `util_last_bit` says of itself: the position of the last bit, 0 if there is none.
pub record IsLastBit (util_last_bit : ℕ → ℕ) : Type 0 where
  pub fits : (u k : ℕ) → u < 2 ^ k → util_last_bit u ≤ k
  pub positive : (u : ℕ) → 0 < u → 0 < util_last_bit u

ones-positive : (w u : ℕ) → 0 < u → u < 2 ^ w → 0 < ones w u
ones-positive zero u pos h = absurd (omega arith)
ones-positive (suc w) u pos h = elim (Bool-cases (u % 2 == 0)) [
  | inl even ↦
      let e : u % 2 ≡ 0 = (==_iff (u % 2) 0).0 even in
      let rest = ones-positive w (u / 2) (omega (arith, e)) (omega arith) in omega (arith, rest)
  | inr odd ↦ let e : 0 < u % 2 = ground (arith, odd) in omega (arith, e)
]

pub popcount32-positive : (u : ℕ) → 0 < u → u < 2 ^ 32 → 0 < popcount32 u
unfolding popcount32
popcount32-positive u pos h = ones-positive 32 u pos h

-- The write of a unit's byte is in bounds.
pub inside :
    (slices subslices stride s ss eug : ℕ)
    → s < slices
    → ss < subslices
    → eug < stride
    → slices * (stride * subslices) ≤ 256
    → s * (stride * subslices) + ss * stride + eug < 256
inside slices subslices stride s ss eug a b c room =
    omega (arith, mul-le-mul_right (stride * subslices) a, mul-le-mul_right stride b)

pub put-length :
    (i byte : ℕ) (mask : List ℕ)
    → length mask ≡ 256
    → i < 256
    → Ensures (put i byte mask) (λ mask'. length mask' ≡ 256)
unfolding put
put-length i byte mask size h =
    Ensures-of (set mask i byte) (ground (arith, size, h)) (length-set mask i byte ∙ size)

write_unit :
    (n eug i : ℕ) (mask : List ℕ)
    → n < 64
    → eug < 8
    → i < 256
    → length mask ≡ 256
    → Ensures (unit_byte n eug >>= λ byte. put i byte mask) (λ mask'. length mask' ≡ 256)
unfolding unit_byte byte_of
write_unit n eug i mask few small h size =
    let byte = (2 ^ n - 1) / 2 ^ (eug * 8) % 256 in
    let shifted : unit_byte n eug ≡ some byte = ground (arith, few, small) in
    let written = put-length i byte mask size h in
    Ensures-of written.result (ap (λ b. b >>= λ byte. put i byte mask) shifted ∙ written.runs)
      written.holds

-- The loops over the execution units return.
pub fill_eus-length :
    (slices subslices stride n : ℕ) (subslices_mask : List ℕ)
    → n < 64
    → stride ≤ 8
    → slices * (stride * subslices) ≤ 256
    → Ensures (fill_eus slices subslices stride n subslices_mask) (λ mask. length mask ≡ 256)
unfolding fill_eus
fill_eus-length slices subslices stride n subslices_mask few small room =
    for_range-Ensures _ (λ s mask. length mask ≡ 256) slices 0 slices (replicate 256 0)
      (omega arith)
      (λ s mask l u size.
        for_range-Ensures _ (λ ss mask. length mask ≡ 256) subslices 0 subslices mask (omega arith)
          (λ ss mask l' u' size.
            Ensures-if
              (bit_set (get_or subslices_mask (s * bytes_for subslices + ss / 8) 0) (ss % 8))
              (λ _.
                for_range-Ensures _ (λ eug mask. length mask ≡ 256) stride 0 stride mask
                  (omega arith)
                  (λ eug mask l'' u'' size.
                    write_unit n eug (s * (stride * subslices) + ss * stride + eug) mask few
                      (omega arith) (inside slices subslices stride s ss eug u u' u'' room) size)
                  size)
              (λ _. Ensures-some mask size))
          size)
      refl
