-- ===== src/Server/Topology/Counted.antt =====
-- What the client counts of the topology that `fill_topology_from_masks` makes.
use native.Mathlib.Nat.{mul-pos, div-eq_of_lt, mul-le-mul_left, mod-lt}
use gputop.Base.{
  ℕ, zero, suc, ◌+◌, ◌-◌, ◌*◌, ◌/◌, ◌%◌, ◌^◌, ◌≤◌, ◌<◌, ◌≡◌, refl, ap, ◌∙◌, arith, List, get_or,
  ◌==◌, ◌||◌, if◌then◌else◌, Ensures, Ensures-if, Ensures-some, Ensures-bind, Bool, true, false,
  lt→ltb,
}
use gputop.Oa.Device.{DevTopology}
use gputop.Client.Topology.{popcount, bytes_for, count_subslices}
use gputop.Client.Topology.Counts.{ones_in, count_slices_lem}
use gputop.Server.Topology.{popcount32, fill_topology_from_masks}
use gputop.Server.Topology.Written.{Written, fill_subslices-Written}
use gputop.Server.Topology.Whole.{IsLastBit, popcount32-positive, fill_eus-length}

-- The number of multiples of `b` among the `n` numbers from `lo` on.
heads : ℕ → ℕ → ℕ → ℕ
heads b lo zero = 0
heads b lo (suc n) = (if lo % b == 0 then 1 else 0) + heads b (lo + 1) n

heads_lem : (b lo n : ℕ) → 0 < b → b ≤ 4 → heads b lo n + (lo + b - 1) / b ≡ (lo + n + b - 1) / b
unfolding heads
heads_lem b lo zero pos small =
    omega (arith, ap (λ k. (k + b - 1) / b) {x = lo} {y = lo + 0} (omega arith))
heads_lem zero lo (suc n) pos small = absurd (omega arith)
heads_lem (suc zero) lo (suc n) pos small = ground (arith, heads_lem 1 (lo + 1) n pos small)
heads_lem (suc (suc zero)) lo (suc n) pos small = ground (arith, heads_lem 2 (lo + 1) n pos small)
heads_lem (suc (suc (suc zero))) lo (suc n) pos small =
    ground (arith, heads_lem 3 (lo + 1) n pos small)
heads_lem (suc (suc (suc (suc zero)))) lo (suc n) pos small =
    ground (arith, heads_lem 4 (lo + 1) n pos small)
heads_lem (suc (suc (suc (suc (suc b))))) lo (suc n) pos small = absurd (omega arith)

-- The byte of a small mask that a place has.
byte_at :
    (b i ss_mask : ℕ)
    → 0 < b
    → b ≤ 4
    → ss_mask ≤ 32
    → ss_mask / 2 ^ (i % b * 8) % 256 ≡ (if i % b == 0 then ss_mask else 0)
byte_at b i ss_mask pos small few = go (i % b) (omega (arith, mod-lt i pos))
  where
    go : (r : ℕ) → r < 4 → ss_mask / 2 ^ (r * 8) % 256 ≡ (if r == 0 then ss_mask else 0)
    go zero h = omega arith
    go (suc zero) h = omega arith
    go (suc (suc zero)) h = omega arith
    go (suc (suc (suc zero))) h = omega arith
    go (suc (suc (suc (suc r)))) h = absurd (omega arith)

popcount-if : (c : Bool) (x : ℕ) → popcount (if c then x else 0) ≡ (if c then 1 else 0) * popcount x
unfolding popcount
popcount-if true x = omega arith
popcount-if false x = omega arith

module _ (b ss_mask k : ℕ) (mask : List ℕ) where
  ones_in-heads :
      Written b ss_mask k mask
      → 0 < b
      → b ≤ 4
      → ss_mask ≤ 32
      → (n lo : ℕ) → lo + n ≤ k
      → ones_in mask lo n ≡ heads b lo n * popcount ss_mask
  unfolding ones_in heads
  ones_in-heads w pos small few zero lo h = omega arith
  ones_in-heads w pos small few (suc n) lo h =
      let rest = ones_in-heads w pos small few n (lo + 1) (omega arith) in
      let byte : get_or mask lo 0 ≡ (if lo % b == 0 then ss_mask else 0) =
        let kept = lt→ltb lo k (omega arith) in
        w.bytes lo
        ∙ ap (λ t. if t then ss_mask / 2 ^ (lo % b * 8) % 256 else 0) kept
        ∙ byte_at b lo ss_mask pos small few in
      let first = ap popcount byte ∙ popcount-if (lo % b == 0) ss_mask in omega (arith, first, rest)

  -- The ones of the first `n` bytes.
  ones_in-Written :
      Written b ss_mask k mask
      → 0 < b
      → b ≤ 4
      → ss_mask ≤ 32
      → (n : ℕ) → n ≤ k
      → ones_in mask 0 n ≡ (n + b - 1) / b * popcount ss_mask
  ones_in-Written w pos small few n h =
      let none_before : (0 + b - 1) / b ≡ 0 = div-eq_of_lt (omega arith) in
      let same : heads b 0 n ≡ (n + b - 1) / b = omega (
        arith,
        heads_lem b 0 n pos small,
        none_before,
        ap (λ k. (k + b - 1) / b) {x = 0 + n} {y = n} (omega arith),
      ) in
      ones_in-heads w pos small few n 0 (omega arith) ∙ ap (λ c. c * popcount ss_mask) same

-- The subslices that the client counts of bytes that were written.
counted :
    (made : DevTopology) (b ss_mask : ℕ)
    → Written b ss_mask (made.max_slices * b) made.subslices_mask
    → (0 < b) × (b ≤ 4)
    → ss_mask ≤ 32
    → bytes_for made.max_subslices ≡ 1
    → count_subslices made ≡ (made.max_slices + b - 1) / b * popcount ss_mask
counted made b ss_mask w bounds few one_byte =
    let n = made.max_slices in
    (count_slices_lem made).1
    ∙ ap (ones_in made.subslices_mask 0) {x = n * bytes_for made.max_subslices} {y = n}
        (omega (arith, ap (λ k. n * k) one_byte))
    ∙ ones_in-Written b ss_mask (n * b) made.subslices_mask w bounds.0 bounds.1 few n
        (omega (arith, mul-le-mul_left n bounds.0))

bytes_for_bounds :
    (ss_mask : ℕ) → 0 < ss_mask → ss_mask ≤ 32 → (0 < bytes_for ss_mask) × (bytes_for ss_mask ≤ 4)
unfolding bytes_for
bytes_for_bounds ss_mask pos few = (omega arith, omega arith)

bytes_for_one : (m : ℕ) → 0 < m → m ≤ 8 → bytes_for m ≡ 1
unfolding bytes_for
bytes_for_one m pos h = omega arith

bytes_for_units : (units : ℕ) → units ≤ 64 → bytes_for units ≤ 8
unfolding bytes_for
bytes_for_units units h = omega arith

not_zero : (a b : ℕ) → 0 < a → 0 < b → ((a == 0) || (b == 0)) ≡ false
not_zero a b h k = ground arith

-- For a mask of slices and a mask of subslices of 1 to 32 whose bytes fit, with fewer than 64
-- execution units for each subslice present, 64 at most for each place of one and room for them all,
-- `fill_topology_from_masks` returns when `util_last_bit` gives the position of the last bit. In
-- the result the client counts the subslices of one slice in every `bytes_for ss_mask`, rounded up:
-- all up to the last slice for a mask up to 8, fewer for one above and several slices.
pub fill_topology_from_masks-count_subslices :
    (util_last_bit : ℕ → ℕ) (topology : DevTopology) (s_mask ss_mask n_eus : ℕ)
    → IsLastBit util_last_bit
    → 0 < s_mask
    → s_mask < 2 ^ 32
    → 0 < ss_mask
    → ss_mask ≤ 32
    → util_last_bit s_mask * bytes_for ss_mask ≤ 16
    → n_eus / (popcount32 s_mask * popcount32 ss_mask) < 64
    → let units = n_eus / (util_last_bit s_mask * util_last_bit ss_mask) in
      units ≤ 64
      → util_last_bit s_mask * (bytes_for units * util_last_bit ss_mask) ≤ 256
      → Ensures (fill_topology_from_masks util_last_bit topology s_mask ss_mask n_eus) (λ made.
        count_subslices made
        ≡ (util_last_bit s_mask + bytes_for ss_mask - 1) / bytes_for ss_mask * popcount ss_mask)
unfolding fill_topology_from_masks
fill_topology_from_masks-count_subslices util_last_bit topology s_mask ss_mask n_eus last some_slice
      word some_subslice few fits per_subslice units room =
    let n = util_last_bit s_mask in
    let m = util_last_bit ss_mask in
    let b = bytes_for ss_mask in
    let b_bounds = bytes_for_bounds ss_mask some_subslice few in
    let one_byte =
      bytes_for_one m (last.positive ss_mask some_subslice) (last.fits ss_mask 8 (omega arith)) in
    let present =
      mul-pos (popcount32-positive s_mask some_slice word)
        (popcount32-positive ss_mask some_subslice (omega arith)) in
    let all = mul-pos (last.positive s_mask some_slice) (last.positive ss_mask some_subslice) in
    let going = not_zero (n * m) (popcount32 s_mask * popcount32 ss_mask) all present in
    Ensures-bind (fill_subslices-Written b ss_mask n refl b_bounds.1 fits) (λ mask w.
      let eus =
        fill_eus-length n m (bytes_for (n_eus / (n * m)))
          (n_eus / (popcount32 s_mask * popcount32 ss_mask)) mask per_subslice
          (bytes_for_units (n_eus / (n * m)) units) room in
      Ensures-bind
        (Ensures-if ((n * m == 0) || (popcount32 s_mask * popcount32 ss_mask == 0))
          (λ zero_size. absurd (cc (zero_size, going))) (λ _. eus))
        (λ eus_mask _. Ensures-some _ (counted _ b ss_mask w b_bounds few one_byte)))
