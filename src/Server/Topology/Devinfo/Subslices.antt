-- ===== src/Server/Topology/Devinfo/Subslices.antt =====
-- The client counts all subslices of the topology that `devinfo_build_topology` makes.
use gputop.Base.{
  ℕ, ◌*◌, ◌≤◌, ◌<◌, ◌≡◌, refl, ap, ◌∙◌, arith, Bool, true, false, length, get_or, replicate,
  if◌then◌else◌, Ensures, Ensures-mono,
}
use gputop.Oa.Device.{DevTopology}
use gputop.Client.Topology.{bytes_for, count_subslices}
use gputop.Client.Topology.Counts.{ones_in, count_slices_lem}
use gputop.Server.Topology.Written.{for_range-Ensures, get_or-replicate}
use gputop.Server.Topology.Devinfo.{build_slice, devinfo_build_topology}
use gputop.Server.Topology.Devinfo.Built.{
  IsSmall, Built, low, subslices_of, build_slice-Built, ones_in-Built,
}

one_byte : (m : ℕ) → 0 < m → m ≤ 8 → bytes_for m ≡ 1
unfolding bytes_for
one_byte m pos h = omega arith

two_bytes : (is_haswell : Bool) → bytes_for (if is_haswell then 10 else 8) ≤ 2
unfolding bytes_for
two_bytes true = omega arith
two_bytes false = omega arith

-- The topology before the loops.
start-Built :
    (is_haswell : Bool) (slices : ℕ) (num_subslices : ℕ → ℕ) (topology : DevTopology)
    → length topology.slices_mask ≡ 4
    → topology.subslices_mask ≡ replicate 16 0
    → length topology.eus_mask ≡ 256
    → Built slices num_subslices 0 0 (record topology {
      max_slices = slices;
      max_subslices = num_subslices 0;
      max_eus_per_subslice = if is_haswell then 10 else 8;
    })
unfolding low
start-Built is_haswell slices num_subslices topology four blank eus =
    let zeros : (i : ℕ) → get_or topology.subslices_mask i 0 ≡ 0 =
      λ i. ap (λ m. get_or m i 0) blank ∙ get_or-replicate 16 i 0 in
    record {
      slices_kept = refl;
      subslices_kept = refl;
      stride_kept = two_bytes is_haswell;
      slices_size = four;
      subslices_size = ap length blank;
      eus_size = eus;
      before = λ i h. absurd (omega arith);
      here = zeros 0;
      after = λ i h. zeros i;
    }

-- For a device of at most 16 slices, the first of 1 to 8 subslices and none of the others of more,
-- `devinfo_build_topology` returns when the masks have their sizes and that of the subslices is
-- zero; the client counts as many subslices of the result as all slices have.
pub devinfo_build_topology-count_subslices :
    (is_haswell : Bool) (slices : ℕ) (num_subslices : ℕ → ℕ) (topology : DevTopology)
    → IsSmall slices num_subslices
    → 0 < num_subslices 0
    → length topology.slices_mask ≡ 4
    → topology.subslices_mask ≡ replicate 16 0
    → length topology.eus_mask ≡ 256
    → Ensures
        (devinfo_build_topology is_haswell slices num_subslices topology)
        (λ made. count_subslices made ≡ subslices_of num_subslices 0 slices)
unfolding devinfo_build_topology
devinfo_build_topology-count_subslices is_haswell slices num_subslices topology d some_subslice four
      blank eus =
    Ensures-mono
      (for_range-Ensures (build_slice num_subslices) (λ s. Built slices num_subslices s 0) slices 0
        slices _ (omega arith) (λ s t l u b. build_slice-Built slices num_subslices d s t u b)
        (start-Built is_haswell slices num_subslices topology four blank eus))
      (λ made b.
        (count_slices_lem made).1
        ∙ ap (ones_in made.subslices_mask 0) {x = made.max_slices * bytes_for made.max_subslices}
            {y = slices}
            (ap (λ n. n * bytes_for made.max_subslices) b.slices_kept
              ∙ ap (λ m. slices * bytes_for m) b.subslices_kept
              ∙ ap (λ k. slices * k) (one_byte (num_subslices 0) some_subslice d.narrow)
              ∙ omega arith)
        ∙ ones_in-Built slices num_subslices d made slices 0 b (omega arith))
