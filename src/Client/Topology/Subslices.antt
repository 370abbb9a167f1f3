-- ===== src/Client/Topology/Subslices.antt =====
-- `subslice_mask` of `build_equations_variables`: which bits of the topology's mask reach it.
use native.Mathlib.Nat.{
  pow-le-pow_right, pow-suc, div-div-eq-div-mul, add-zero, le_trans, mul-zero, mul-le-mul_left,
}
use gputop.Base.{
  ℕ, zero, suc, ◌+◌, ◌*◌, ◌/◌, ◌%◌, ◌^◌, ◌≤◌, ◌<◌, min, bit_or, bit_or_high, ◌≡◌, arith, refl, ap,
  ap₂, sym, ==_iff, ◌∙◌, Bool-cases, inl, inr, get_or, u64, counted, ◌==◌,
}
use gputop.Oa.Device.{DevTopology}
use gputop.Client.Topology.{bit_set, slice_stride, add_subslice, build_subslice_mask}

-- The number that the lowest `n` bits of `x` make.
pub low_bits : ℕ → ℕ → ℕ
low_bits zero x = 0
low_bits (suc n) x = x % 2 + 2 * low_bits n (x / 2)

shl_fits : (k : ℕ) → k < 64 → u64 (2 ^ k) ≡ 2 ^ k
shl_fits k h =
    let below : 2 ^ k ≤ 2 ^ 63 =
      pow-le-pow_right {n = 2} (omega arith) {i = k} {j = 63} (omega arith) in
    omega arith

-- `mask |= 1 << k` above all bits of the mask.
or_above : (mask k : ℕ) → mask < 2 ^ k → k < 64 → bit_or mask (u64 (2 ^ k)) ≡ 2 ^ k + mask
or_above mask k below h = rw (shl_fits k h) (
    ap (bit_or mask) {x = 2 ^ k} {y = 1 * 2 ^ k} (omega arith)
    ∙ bit_or_high k mask 1 below
    ∙ omega arith)

halves : (byte ss x : ℕ) → byte / 2 ^ ss ≡ x → byte / 2 ^ (ss + 1) ≡ x / 2
halves byte ss x e =
    ap (λ d. byte / d) {x = 2 ^ (ss + 1)} {y = 2 ^ ss * 2}
      (ap (λ k. 2 ^ k) {x = ss + 1} {y = suc ss} (omega arith) ∙ pow-suc 2 ss)
    ∙ sym (div-div-eq-div-mul byte (2 ^ ss) 2)
    ∙ ap (λ d. d / 2) e

-- A power of two at the next exponent.
next_power : (p ss : ℕ) → 2 ^ (p + (ss + 1)) ≡ 2 * 2 ^ (p + ss)
next_power p ss =
    ap (λ k. 2 ^ k) {x = p + (ss + 1)} {y = suc (p + ss)} (omega arith)
    ∙ omega (arith, pow-suc 2 (p + ss))

double_below : (b m P : ℕ) → b < 2 → m < P → b * P + m < 2 * P
double_below zero m P h lt = omega arith
double_below (suc zero) m P h lt = omega arith
double_below (suc (suc b)) m P h lt = absurd (omega arith)

step_below :
    (p ss b mask : ℕ) → b < 2 → mask < 2 ^ (p + ss) → b * 2 ^ (p + ss) + mask < 2 ^ (p + (ss + 1))
step_below p ss b mask h below = rw (next_power p ss) (double_below b mask (2 ^ (p + ss)) h below)

module _ (topology : DevTopology) (bits s : ℕ) where
  abbrev byte : ℕ
  byte = get_or topology.subslices_mask (slice_stride topology * s) 0

  bit_read :
      (ss x : ℕ)
      → ss < 8
      → byte / 2 ^ ss ≡ x
      → bit_set (get_or topology.subslices_mask (slice_stride topology * s + ss / 8) 0) (ss % 8)
        ≡ (x % 2 == 1)
  bit_read ss x h e =
      let here : slice_stride topology * s + ss / 8 ≡ slice_stride topology * s = omega arith in
      let bit : ss % 8 ≡ ss = omega arith in
      ap₂ (λ i k. bit_set (get_or topology.subslices_mask i 0) k) here bit ∙ ap (λ t. t % 2 == 1) e

  step_lem :
      (ss mask x : ℕ)
      → ss < 8
      → bits * s + ss < 64
      → mask < 2 ^ (bits * s + ss)
      → byte / 2 ^ ss ≡ x
      → add_subslice topology bits s ss mask ≡ (x % 2) * 2 ^ (bits * s + ss) + mask
  step_lem ss mask x h fits below e = elim (Bool-cases (x % 2 == 1)) [
    | inl one ↦
        let bit : x % 2 ≡ 1 = (==_iff (x % 2) 1).0 one in
        rw (bit_read ss x h e, one, bit) (or_above mask (bits * s + ss) below fits ∙ omega arith)
    | inr off ↦ let bit : x % 2 ≡ 0 = ground arith in rw (bit_read ss x h e, off, bit) omega arith
  ]

  -- One slice: the lowest `n` bits from `ss` on are put above the mask.
  slice_lem :
      (n ss mask x : ℕ)
      → ss + n ≤ 8
      → bits * s + ss + n ≤ 64
      → mask < 2 ^ (bits * s + ss)
      → byte / 2 ^ ss ≡ x
      → counted n ss (add_subslice topology bits s) mask ≡ low_bits n x * 2 ^ (bits * s + ss) + mask
  unfolding counted low_bits
  slice_lem zero ss mask x h fits below e = omega arith
  slice_lem (suc n) ss mask x h fits below e =
      let at = step_lem ss mask x (omega arith) (omega arith) below e in
      let P = 2 ^ (bits * s + ss) in
      let rest =
        slice_lem n (ss + 1) (x % 2 * P + mask) (x / 2) (omega arith) (omega arith)
          (step_below (bits * s) ss (x % 2) mask (omega arith) below) (halves byte ss x e) in
      rw at omega (arith, rest, ap (λ t. low_bits n (x / 2) * t) (next_power (bits * s) ss))

  slice_below :
      (n ss mask x : ℕ)
      → mask < 2 ^ (bits * s + ss)
      → low_bits n x * 2 ^ (bits * s + ss) + mask < 2 ^ (bits * s + (ss + n))
  unfolding low_bits
  slice_below zero ss mask x below = rw (add-zero ss) omega arith
  slice_below (suc n) ss mask x below =
      let P = 2 ^ (bits * s + ss) in
      let rest =
        slice_below n (ss + 1) (x % 2 * P + mask) (x / 2)
          (step_below (bits * s) ss (x % 2) mask (omega arith) below) in
      omega (
        arith,
        rest,
        ap (λ t. low_bits n (x / 2) * t) (next_power (bits * s) ss),
        ap (λ k. 2 ^ (bits * s + k)) {x = ss + 1 + n} {y = ss + suc n} (omega arith),
      )

-- The fields of `bits` bits that the lowest `n` bits of the byte at the start of each slice make.
pub packed : DevTopology → ℕ → ℕ → ℕ → ℕ → ℕ
packed topology bits n s zero = 0
packed topology bits n s (suc slices) =
    low_bits n (get_or topology.subslices_mask (slice_stride topology * s) 0) * 2 ^ (bits * s)
    + packed topology bits n (s + 1) slices

module _ (topology : DevTopology) (bits n : ℕ) where
  slices_lem :
      (slices s mask : ℕ)
      → n ≤ bits
      → bits ≤ 8
      → bits * (s + slices) ≤ 64
      → mask < 2 ^ (bits * s)
      → counted slices s (λ s mask. counted n 0 (add_subslice topology bits s) mask) mask
        ≡ packed topology bits n s slices + mask
  unfolding packed counted
  slices_lem zero s mask few small fits below = omega arith
  slices_lem (suc slices) s mask few small fits below =
      let B = get_or topology.subslices_mask (slice_stride topology * s) 0 in
      let at : 2 ^ (bits * s + 0) ≡ 2 ^ (bits * s) = rw (add-zero (bits * s)) refl in
      let mask' = low_bits n B * 2 ^ (bits * s + 0) + mask in
      let below0 : mask < 2 ^ (bits * s + 0) = rw at below in
      let room : bits * s + 0 + n ≤ 64 = omega arith in
      let inner = slice_lem topology bits s n 0 mask B (omega arith) room below0 (omega arith) in
      let next : mask' < 2 ^ (bits * (s + 1)) =
        le_trans (slice_below topology bits s n 0 mask B below0) (
          pow-le-pow_right {n = 2} (omega arith) {i = bits * s + (0 + n)} {j = bits * (s + 1)}
            (omega arith)) in
      let rest = slices_lem slices (s + 1) mask' few small (omega arith) next in
      rw inner omega (arith, rest, ap (λ t. low_bits n B * t) at)

-- With at most 64 bits for all slices, `subslice_mask` holds for each slice a field of
-- `bits_per_slice` bits, made of the lowest three bits, or as many as there are subslices, of
-- the byte of `subslices_mask` at `slice_stride` times the slice.
pub build_subslice_mask_lem :
    (topology : DevTopology) (bits : ℕ)
    → 3 ≤ bits
    → bits ≤ 8
    → bits * topology.max_slices ≤ 64
    → build_subslice_mask topology bits
      ≡ packed topology bits (min topology.max_subslices 3) 0 topology.max_slices
unfolding build_subslice_mask
build_subslice_mask_lem topology bits low small fits = omega (
  arith,
  slices_lem topology bits (min topology.max_subslices 3) topology.max_slices 0 0 (omega arith)
      small (omega arith) (rw (mul-zero bits) omega arith),
)

low_bits-zero : (n : ℕ) → low_bits n 0 ≡ 0
unfolding low_bits
low_bits-zero zero = refl
low_bits-zero (suc n) = omega (arith, low_bits-zero n)

packed_lost :
    (topology : DevTopology) (bits n slices s : ℕ)
    → ((k : ℕ) → s ≤ k → get_or topology.subslices_mask (slice_stride topology * k) 0 ≡ 0)
    → packed topology bits n s slices ≡ 0
unfolding packed
packed_lost topology bits n zero s lost = refl
packed_lost topology bits n (suc slices) s lost =
    let rest = packed_lost topology bits n slices (s + 1) (λ k h. lost k (omega arith)) in
    rw (lost s (omega arith), low_bits-zero n, rest) omega arith

-- The byte is looked for at `slice_stride`, the stride of `eus_mask`. When `subslices_mask` has
-- one byte for each slice and `slice_stride` is no less than the number of slices, only the
-- subslices of the first slice reach `subslice_mask`, whatever those of the others are.
pub build_subslice_mask_lost :
    (topology : DevTopology) (bits : ℕ)
    → 3 ≤ bits
    → bits ≤ 8
    → bits * topology.max_slices ≤ 64
    → 0 < topology.max_slices
    → topology.max_slices ≤ slice_stride topology
    → ((i : ℕ) → topology.max_slices ≤ i → get_or topology.subslices_mask i 0 ≡ 0)
    → build_subslice_mask topology bits
      ≡ low_bits (min topology.max_subslices 3) (get_or topology.subslices_mask 0 0)
unfolding packed
build_subslice_mask_lost topology bits low small fits some_slice wide rest =
    build_subslice_mask_lem topology bits low small fits ∙ first topology.max_slices refl some_slice
  where
    lost : (k : ℕ) → 1 ≤ k → get_or topology.subslices_mask (slice_stride topology * k) 0 ≡ 0
    lost k h =
        rest (slice_stride topology * k) (omega (arith, mul-le-mul_left (slice_stride topology) h))

    first :
        (slices : ℕ)
        → slices ≡ topology.max_slices
        → 0 < slices
        → packed topology bits (min topology.max_subslices 3) 0 slices
          ≡ low_bits (min topology.max_subslices 3) (get_or topology.subslices_mask 0 0)
    first zero e h = absurd (omega arith)
    first (suc slices) e h =
        rw
          (
            packed_lost topology bits (min topology.max_subslices 3) slices 1 lost,
            mul-zero (slice_stride topology),
            mul-zero bits,
          )
          omega arith
