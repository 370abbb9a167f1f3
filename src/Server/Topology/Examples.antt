-- ===== src/Server/Topology/Examples.antt =====
-- Masks of a few slices.
use gputop.Base.{
  refl, false, replicate, ℕ, zero, suc, ◌+◌, ◌-◌, ◌*◌, ◌/◌, ◌^◌, ◌≤◌, ◌<◌, ◌≡◌, arith, none, [],
  ◌==◌, if◌then◌else◌, ◌⊎◌, ◌↔◌, Ensures,
}
use gputop.Oa.Device.{DevTopology}
use gputop.Client.Topology.{bytes_for, popcount, count_subslices}
use gputop.Server.Topology.{fill_subslices, popcount32, fill_topology_from_masks}
use gputop.Server.Topology.Faults.{fill_subslices_fault_iff}
use gputop.Server.Topology.Whole.{IsLastBit}
use gputop.Server.Topology.Devinfo.{devinfo_build_topology}
use gputop.Server.Topology.Devinfo.Built.{subslices_of}
use gputop.Server.Topology.Devinfo.Subslices.{devinfo_build_topology-count_subslices}
use gputop.Server.Topology.Counted.{fill_topology_from_masks-count_subslices}

-- The position of the last bit, by shifts.
last_bit : ℕ → ℕ → ℕ
last_bit zero u = 0
last_bit (suc w) u = let rest = last_bit w (u / 2) in if u == 0 then 0 else suc rest

last_bit_fits : (w u k : ℕ) → u < 2 ^ k → last_bit w u ≤ k
unfolding last_bit
last_bit_fits zero u k h = omega arith
last_bit_fits (suc w) u zero h = ground (arith, h)
last_bit_fits (suc w) u (suc k) h =
    let rest = last_bit_fits w (u / 2) k (omega (arith, h)) in ground (arith, rest)

last_bit-IsLastBit : IsLastBit (last_bit 32)
unfolding last_bit
last_bit-IsLastBit = record { fits = last_bit_fits 32; positive = λ u h. ground (arith, h) }

abbrev blank : DevTopology
blank = record {
  max_slices = 0;
  max_subslices = 0;
  max_eus_per_subslice = 0;
  n_threads_per_eu = 7;
  slices_mask = [];
  subslices_mask = [];
  eus_mask = [];
  engines = [];
}

fill_subslices_fault_iff_example :
    (fill_subslices 1 0xff ≡ none) ↔ ((0 < 1) × ((32 < 0xff) ⊎ (16 < 1 * bytes_for 0xff)))
fill_subslices_fault_iff_example = fill_subslices_fault_iff 1 0xff

-- Three slices of four subslices each: eight of the twelve subslices are counted.
fill_topology_from_masks-count_subslices_example :
    Ensures (fill_topology_from_masks (last_bit 32) blank 7 0xf 96) (λ made.
      count_subslices made ≡ (last_bit 32 7 + bytes_for 0xf - 1) / bytes_for 0xf * popcount 0xf)
unfolding last_bit bytes_for popcount32
fill_topology_from_masks-count_subslices_example =
    fill_topology_from_masks-count_subslices (last_bit 32) blank 7 0xf 96 last_bit-IsLastBit
      (omega arith) (omega arith) (omega arith) (omega arith) (omega arith) (omega arith)
      (omega arith) (omega arith)

-- Two slices of three subslices each.
devinfo_build_topology-count_subslices_example :
    Ensures
      (devinfo_build_topology false 2
        (λ s. 3)
        (record blank {
          slices_mask = replicate 4 0;
          subslices_mask = replicate 16 0;
          eus_mask = replicate 256 0;
        }))
      (λ made. count_subslices made ≡ subslices_of (λ s. 3) 0 2)
devinfo_build_topology-count_subslices_example =
    devinfo_build_topology-count_subslices false 2 (λ s. 3)
      (record blank {
        slices_mask = replicate 4 0;
        subslices_mask = replicate 16 0;
        eus_mask = replicate 256 0;
      })
      (record { few = omega arith; narrow = omega arith; widest = λ s h. omega arith })
      (omega arith) refl refl refl
