-- ===== src/Server/Topology.antt =====
-- The topology of a device that the server makes of masks of slices and subslices and a number of
-- execution units, fill_topology_from_masks of server/gputop-perf.c. `util_last_bit` of mesa is an
-- argument. `none` is a write out of bounds, a shift by the width of the type or a division by
-- zero.
pub mod Written
pub mod Faults
pub mod Whole
pub mod Counted
pub mod Devinfo
mod Examples
use gputop.Base.{
  ℕ, zero, suc, ◌+◌, ◌-◌, ◌*◌, ◌/◌, ◌%◌, ◌^◌, Option, none, some, List, length, get_or, set,
  replicate, ltb, ◌==◌, ◌||◌, if◌then◌else◌, u8, ◌>>=◌,
}
use gputop.Oa.Device.{DevTopology}
use gputop.Client.Topology.{ones, bit_set, bytes_for}

-- `for (k = lo; k < lo + rounds; k++)` with a body that may fail.
unfoldable pub for_range : {S : Type 0} → ℕ → ℕ → (ℕ → S → Option S) → S → Option S
for_range zero lo step s = some s
for_range (suc rounds) lo step s = step lo s >>= for_range rounds (lo + 1) step

-- `mask[i] = byte`.
unfoldable pub put : ℕ → ℕ → List ℕ → Option (List ℕ)
put i byte mask = if ltb i (length mask) then some (set mask i byte) else none

-- `(word >> (k * 8)) & 0xff` of a word of `w` bits.
unfoldable pub byte_of : ℕ → ℕ → ℕ → Option ℕ
byte_of w word k = if ltb (k * 8) w then some (word / 2 ^ (k * 8) % 256) else none

-- `(((1UL << n) - 1) >> (eug * 8)) & 0xff`.
unfoldable pub unit_byte : ℕ → ℕ → Option ℕ
unit_byte n eug = if ltb n 64 then byte_of 64 (2 ^ n - 1) eug else none

-- The loops over `subslices_mask`, for `slices` slices.
unfoldable pub fill_subslices : ℕ → ℕ → Option (List ℕ)
fill_subslices slices ss_mask =
    let stride = bytes_for ss_mask in
    for_range slices 0
      (λ s.
        for_range stride 0
          (λ ss mask. byte_of 32 ss_mask ss >>= λ byte. put (s * stride + ss) byte mask))
      (replicate 16 0)

-- The loops over `eus_mask`, with `n` units in each subslice.
unfoldable pub fill_eus : ℕ → ℕ → ℕ → ℕ → List ℕ → Option (List ℕ)
fill_eus slices subslices stride n subslices_mask =
    for_range slices 0
      (λ s. for_range subslices 0 (λ ss eus_mask.
        let written =
          for_range stride 0
            (λ eug mask. unit_byte n eug >>= λ byte.
              put (s * (stride * subslices) + ss * stride + eug) byte mask)
            eus_mask in
        if bit_set (get_or subslices_mask (s * bytes_for subslices + ss / 8) 0) (ss % 8)
        then written
        else some eus_mask))
      (replicate 256 0)

-- `__builtin_popcount` of a word.
unfoldable pub popcount32 : ℕ → ℕ
popcount32 word = ones 32 word

-- `fill_topology_from_masks`.
unfoldable pub fill_topology_from_masks : (ℕ → ℕ) → DevTopology → ℕ → ℕ → ℕ → Option DevTopology
fill_topology_from_masks util_last_bit topology s_mask ss_mask n_eus =
    let max_slices = util_last_bit s_mask in
    let max_subslices = util_last_bit ss_mask in
    let present = popcount32 s_mask * popcount32 ss_mask in
    let n_eus_per_subslice = n_eus / present in
    let stride = bytes_for (n_eus / (max_slices * max_subslices)) in
    fill_subslices max_slices ss_mask >>= λ subslices_mask.
    (if (max_slices * max_subslices == 0) || (present == 0)
      then none
      else fill_eus max_slices max_subslices stride n_eus_per_subslice subslices_mask)
    >>= λ eus_mask. some (record topology {
      max_slices = max_slices;
      max_subslices = max_subslices;
      max_eus_per_subslice = 8 * bytes_for n_eus_per_subslice;
      slices_mask = set (replicate 4 0) 0 (u8 s_mask);
      subslices_mask = subslices_mask;
      eus_mask = eus_mask;
    })
