-- ===== src/Client/Topology.antt =====
-- What the metric equations read of a device's topology: `build_equations_variables` of
-- lib/gputop-client-context.c.
-- The masks are lists of bytes; a read behind the end of one gives 0.
pub mod Counts
pub mod Subslices
use gputop.Base.{
  ℕ, zero, suc, ◌+◌, ◌*◌, ◌/◌, ◌%◌, ◌^◌, min, bit_or, Bool, Option, none, some, leb, ◌==◌,
  if◌then◌else◌, get_or, u64, counted, ◌>>=◌,
}
use gputop.Oa.Device.{DevInfo, DevTopology}

-- `DIV_ROUND_UP(n, 8)`.
unfoldable pub bytes_for : ℕ → ℕ
bytes_for n = (n + 7) / 8

-- The ones of the lowest `w` bits.
abbrev pub ones : ℕ → ℕ → ℕ
ones zero n = 0
ones (suc w) n = n % 2 + ones w (n / 2)

-- `__builtin_popcount` of a byte.
unfoldable pub popcount : ℕ → ℕ
popcount byte = ones 8 byte

-- `(byte & (1UL << bit)) != 0`.
abbrev pub bit_set : ℕ → ℕ → Bool
bit_set byte bit = (byte / 2 ^ bit) % 2 == 1

abbrev pub subslice_stride : DevTopology → ℕ
subslice_stride topology = bytes_for topology.max_eus_per_subslice

abbrev pub slice_stride : DevTopology → ℕ
slice_stride topology = subslice_stride topology * topology.max_subslices

-- The loops over `eus_mask`.
unfoldable pub count_eus : DevTopology → ℕ
count_eus topology =
    counted topology.max_slices 0
      (λ s acc.
        counted topology.max_subslices 0
          (λ ss acc.
            counted (subslice_stride topology) 0
              (λ eug acc.
                acc
                + popcount (
                    get_or topology.eus_mask
                      (slice_stride topology * s + subslice_stride topology * ss + eug) 0))
              acc)
          acc)
      0

unfoldable pub count_slices : DevTopology → ℕ
count_slices topology =
    counted (bytes_for topology.max_slices) 0
      (λ s acc. acc + popcount (get_or topology.slices_mask s 0)) 0

unfoldable pub count_subslices : DevTopology → ℕ
count_subslices topology =
    counted (topology.max_slices * bytes_for topology.max_subslices) 0
      (λ s acc. acc + popcount (get_or topology.subslices_mask s 0)) 0

-- `subslice_bits_per_slice`; `none` is the `unreachable`.
unfoldable pub bits_per_slice : ℕ → Option ℕ
bits_per_slice gen = if leb gen 10 then some 3 else if gen == 11 then some 8 else none

-- The body of the inner loop that builds `subslice_mask`.
abbrev pub add_subslice : DevTopology → ℕ → ℕ → ℕ → ℕ → ℕ
add_subslice topology bits s ss mask =
    if bit_set (get_or topology.subslices_mask (slice_stride topology * s + ss / 8) 0) (ss % 8)
    then bit_or mask (u64 (2 ^ (bits * s + ss)))
    else mask

unfoldable pub build_subslice_mask : DevTopology → ℕ → ℕ
build_subslice_mask topology bits =
    counted topology.max_slices 0
      (λ s mask. counted (min topology.max_subslices 3) 0 (add_subslice topology bits s) mask) 0

-- `build_equations_variables`.
unfoldable pub build_equations_variables : DevInfo → Option DevInfo
build_equations_variables devinfo =
    let topology = devinfo.topology in
    bits_per_slice devinfo.gen >>= λ bits. some (record devinfo {
      n_eus = count_eus topology;
      n_eu_slices = count_slices topology;
      n_eu_sub_slices = count_subslices topology;
      slice_mask = get_or topology.slices_mask 0 0;
      subslice_mask = build_subslice_mask topology bits;
      eu_threads_count = count_eus topology * topology.n_threads_per_eu;
    })
