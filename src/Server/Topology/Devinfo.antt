-- ===== src/Server/Topology/Devinfo.antt =====
-- The topology of a device that the kernel says nothing of, devinfo_build_topology of
-- server/gputop-perf.c. The numbers of slices and subslices that mesa knows are arguments.
pub mod Built
pub mod Subslices
use gputop.Base.{
  ℕ, ◌+◌, ◌-◌, ◌*◌, ◌^◌, Bool, Option, none, some, get_or, ltb, List, if◌then◌else◌, u8, bit_or,
  ◌>>=◌,
}
use gputop.Oa.Device.{DevTopology}
use gputop.Client.Topology.{bytes_for}
use gputop.Server.Topology.{for_range, put, byte_of}

-- `mask[i] |= 1U << bit`.
unfoldable pub or_bit : ℕ → ℕ → List ℕ → Option (List ℕ)
or_bit i bit mask =
    if ltb bit 32 then put i (u8 (bit_or (get_or mask i 0) (2 ^ bit))) mask else none

-- The body of the loop over the subslices of slice `s`.
unfoldable pub build_subslice : ℕ → ℕ → DevTopology → Option DevTopology
build_subslice s ss topology =
    let max_eus = topology.max_eus_per_subslice in
    let stride = bytes_for max_eus in
    let slice_stride = stride * topology.max_subslices in
    or_bit s ss topology.subslices_mask >>= λ subslices_mask.
    for_range stride 0
      (λ eug mask. byte_of 64 (2 ^ max_eus - 1) eug >>= λ byte.
        put (s * slice_stride + ss * stride + eug) byte mask)
      topology.eus_mask
    >>= λ eus_mask. some (record topology { subslices_mask = subslices_mask; eus_mask = eus_mask })

-- The body of the loop over the slices.
unfoldable pub build_slice : (ℕ → ℕ) → ℕ → DevTopology → Option DevTopology
build_slice num_subslices s topology = or_bit 0 s topology.slices_mask >>= λ slices_mask.
    for_range (num_subslices s) 0 (build_subslice s) (record topology { slices_mask = slices_mask })

-- `devinfo_build_topology`.
unfoldable pub devinfo_build_topology : Bool → ℕ → (ℕ → ℕ) → DevTopology → Option DevTopology
devinfo_build_topology is_haswell num_slices num_subslices topology =
    for_range num_slices 0 (build_slice num_subslices) (record topology {
      max_slices = num_slices;
      max_subslices = num_subslices 0;
      max_eus_per_subslice = if is_haswell then 10 else 8;
    })
