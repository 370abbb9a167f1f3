-- ===== src/Client/Topology/Counts.antt =====
-- The counting loops of `build_equations_variables` run through a prefix of each mask.
use gputop.Base.{ℕ, zero, suc, ◌+◌, ◌*◌, ◌≡◌, List, arith, refl, ap, ap₂, ◌∙◌, get_or, counted}
use native.Mathlib.Nat.{mul-zero}
use gputop.Oa.Device.{DevTopology}
use gputop.Client.Topology.{
  popcount, bytes_for, subslice_stride, slice_stride, count_eus, count_slices, count_subslices,
}

-- The ones in `n` bytes from `lo` on.
unfoldable pub ones_in : List ℕ → ℕ → ℕ → ℕ
ones_in mask lo zero = 0
ones_in mask lo (suc n) = popcount (get_or mask lo 0) + ones_in mask (lo + 1) n

module _ (mask : List ℕ) where
  ones_in_split :
      (m n lo : ℕ) → ones_in mask lo (m + n) ≡ ones_in mask lo m + ones_in mask (lo + m) n
  unfolding ones_in
  ones_in_split zero n lo = grind arith
  ones_in_split (suc m) n lo = grind (arith, ones_in_split m n (lo + 1))

  -- A loop whose rounds each add the ones of a row of `w` bytes adds those of all rows.
  module _ (w base : ℕ) (start : ℕ → ℕ) (step : ℕ → ℕ → ℕ) where
    rows :
        ((k acc : ℕ) → step k acc ≡ acc + ones_in mask (start k) w)
        → ((k : ℕ) → start k ≡ base + w * k)
        → (n i acc : ℕ) → counted n i step acc ≡ acc + ones_in mask (base + w * i) (w * n)
    unfolding counted ones_in
    rows adds from zero i acc = rw (mul-zero w) omega arith
    rows adds from (suc n) i acc = omega (
      arith,
      rows adds from n (i + 1) (step i acc),
      adds i acc,
      ap (λ k. ones_in mask k w) (from i),
      ones_in_split w (w * n) (base + w * i),
      ap (λ k. ones_in mask k (w * n)) {x = base + w * (i + 1)} {y = base + w * i + w}
          (omega arith),
      ap (λ k. ones_in mask (base + w * i) k) {x = w * suc n} {y = w + w * n} (omega arith),
    )

    all_rows :
        ((k acc : ℕ) → step k acc ≡ acc + ones_in mask (start k) w)
        → ((k : ℕ) → start k ≡ base + w * k)
        → (n acc total : ℕ) → w * n ≡ total
        → counted n 0 step acc ≡ acc + ones_in mask base total
    all_rows adds from n acc total e =
        rows adds from n 0 acc
        ∙ ap₂ (λ lo len. acc + ones_in mask lo len) {x = base + w * 0} {y = base} (omega arith) e

  -- A round that adds one byte.
  one_byte : (k acc : ℕ) → acc + popcount (get_or mask k 0) ≡ acc + ones_in mask k 1
  unfolding ones_in
  one_byte k acc = omega arith

-- `n_eus` counts the ones of the whole prefix that the three nested loops run through.
pub count_eus_lem :
    (topology : DevTopology)
    → count_eus topology ≡ ones_in topology.eus_mask 0 (slice_stride topology * topology.max_slices)
unfolding count_eus
count_eus_lem topology =
    all_rows mask width 0 (λ s. width * s) _
      (λ s acc.
        all_rows mask stride (width * s) (λ ss. width * s + stride * ss) _
          (λ ss acc.
            all_rows mask 1 (width * s + stride * ss) (λ eug. width * s + stride * ss + eug) _
              (λ eug acc. one_byte mask (width * s + stride * ss + eug) acc) (λ eug. omega arith)
              stride acc stride (omega arith))
          (λ ss. refl) topology.max_subslices acc width refl)
      (λ s. omega arith) topology.max_slices 0 _ refl
    ∙ omega arith
  where
    mask : List ℕ
    mask = topology.eus_mask

    stride : ℕ
    stride = subslice_stride topology

    width : ℕ
    width = slice_stride topology

flat_count :
    (mask : List ℕ) (n : ℕ)
    → counted n 0 (λ s acc. acc + popcount (get_or mask s 0)) 0 ≡ ones_in mask 0 n
flat_count mask n =
    omega
      (arith, all_rows mask 1 0 (λ k. k) _ (one_byte mask) (λ k. omega arith) n 0 n (omega arith))

-- So do the counts of slices and subslices.
pub count_slices_lem :
    (topology : DevTopology)
    → (count_slices topology ≡ ones_in topology.slices_mask 0 (bytes_for topology.max_slices))
      × (count_subslices topology
          ≡ ones_in topology.subslices_mask 0
              (topology.max_slices * bytes_for topology.max_subslices))
unfolding count_slices count_subslices
count_slices_lem topology =
    (flat_count topology.slices_mask _, flat_count topology.subslices_mask _)
