-- ===== src/Client/Platform/Announced.antt =====
-- What the server announces is what the client registers.
use mathlib.Core.List.{append-nil}
use gputop.Base.{
  zero, suc, ◌+◌, ◌≤◌, ◌++◌, [], get_or, drop, ◌*◌, ap, ◌∙◌, length, replicate, length-replicate,
  write_lem, Bytes, arith, ℕ, ◌≡◌, refl, Bool, true, false, Option, none, some, if◌then◌else◌, ◌==◌,
}
use mathlib.Core.Path.{subst}
use gputop.Metrics.{GenDeviceInfo, Platform, lkf}
use gputop.Server.Platform.{Named, init_names, name_platform, pb_devinfo}
use gputop.Client.Platform.{gen_metrics_for, register_platform_metrics, fit, copy_mask}
use gputop.Oa.Device.{DevInfo, DevTopology}
use gputop.Client.Topology.{
  build_equations_variables, bits_per_slice, slice_stride, bytes_for, count_eus, count_slices,
  count_subslices, build_subslice_mask,
}
use gputop.Client.Topology.Counts.{ones_in, count_eus_lem, count_slices_lem}

-- The metrics that the client ends up with, by those that the server uses.
abbrev pub registered : Option Platform → Platform → Option Platform
registered before lkf = before
registered before metrics = some metrics

module _ (before : Option Platform) where
  abbrev Known : Option Named → Type 0
  Known none = Unit
  Known (some n) = gen_metrics_for n.devname before ≡ registered before n.gen_metrics

  Known-if : (b : Bool) (x y : Option Named) → Known x → Known y → Known (if b then x else y)
  Known-if true x y kx ky = kx
  Known-if false x y kx ky = ky

  name_platform-Known : (devinfo : GenDeviceInfo) → Known (name_platform devinfo)
  unfolding gen_metrics_for
  name_platform-Known d = Known-if d.is_haswell _ _ refl (
      Known-if d.is_broadwell _ _ refl (
        Known-if d.is_cherryview _ _ refl (
          Known-if d.is_skylake _ _
            (Known-if (d.gt == 2) _ _ refl
              (Known-if (d.gt == 3) _ _ refl (Known-if (d.gt == 4) _ _ refl tt)))
            (Known-if d.is_broxton _ _ refl (
              Known-if d.is_kabylake _ _
                (Known-if (d.gt == 2) _ _ refl (Known-if (d.gt == 3) _ _ refl tt))
                (Known-if d.is_geminilake _ _ refl (
                  Known-if d.is_coffeelake _ _
                    (Known-if (d.gt == 2) _ _ refl (Known-if (d.gt == 3) _ _ refl tt))
                    (Known-if d.is_cannonlake _ _ refl (
                      Known-if d.is_elkhartlake _ _ refl
                        (Known-if (d.gen == 11) _ _ refl tt))))))))))

-- Outside fake mode, the client registers for the name that the server announces the metrics
-- that the server uses, except for an Elkhartlake: its name "EHL" is not in the client's table,
-- and the client keeps the metrics it had before.
pub gen_metrics_for-init_names :
    (devinfo : GenDeviceInfo) (n : Named) (before : Option Platform)
    → init_names false devinfo ≡ some n
    → gen_metrics_for n.devname before ≡ registered before n.gen_metrics
unfolding init_names
gen_metrics_for-init_names devinfo n before e =
    subst (λ o. Known before o) e (name_platform-Known before devinfo)

drop-replicate : (n m : ℕ) → n ≤ m → drop {A = ℕ} m (replicate n 0) ≡ []
drop-replicate zero zero h = refl
drop-replicate zero (suc m) h = refl
drop-replicate (suc n) zero h = absurd (omega arith)
drop-replicate (suc n) (suc m) h = drop-replicate n m (omega arith)

copy_mask-whole : (size : ℕ) (mask : Bytes) → length mask ≡ size → copy_mask size mask ≡ some mask
unfolding copy_mask
copy_mask-whole size mask whole =
    write_lem (replicate size 0) 0 mask (rw length-replicate omega arith)
    ∙ ap some (
        ap (λ rest. mask ++ rest) (drop-replicate size (0 + length mask) (omega arith))
        ∙ append-nil mask)

-- `result` holds the topology of `devinfo` without the engines, and its counts.
abbrev pub Registered :
    (devinfo : DevInfo) (metrics : Option Platform) (result : Option (DevInfo × Option Platform))
    → Type 0
Registered devinfo metrics result =
    (r : DevInfo) × (result ≡ some (r, metrics))
    × (r.topology ≡ record devinfo.topology { engines = replicate 5 0 })
    × (r.timestamp_frequency ≡ devinfo.timestamp_frequency)
    × (r.n_eus
        ≡ ones_in devinfo.topology.eus_mask 0
            (slice_stride devinfo.topology * devinfo.topology.max_slices))
    × (r.n_eu_slices
        ≡ ones_in devinfo.topology.slices_mask 0 (bytes_for devinfo.topology.max_slices))
    × (r.n_eu_sub_slices
        ≡ ones_in devinfo.topology.subslices_mask 0
            (devinfo.topology.max_slices * bytes_for devinfo.topology.max_subslices))
    × (r.eu_threads_count ≡ r.n_eus * devinfo.topology.n_threads_per_eu)

-- A device whose mask arrays have their sizes and whose generation has a layout of subslice
-- bits is registered without a failed assertion: the client has the server's topology, without
-- the engines, and the counts of all execution units, slices and subslices in it.
pub register_platform_metrics-pb_devinfo :
    (client devinfo : DevInfo) (before : Option Platform) (bits : ℕ)
    → length devinfo.topology.slices_mask ≡ 4
    → length devinfo.topology.subslices_mask ≡ 16
    → length devinfo.topology.eus_mask ≡ 256
    → bits_per_slice devinfo.gen ≡ some bits
    → Registered devinfo
        (gen_metrics_for (fit 20 devinfo.devname) before)
        (register_platform_metrics client before (pb_devinfo devinfo))
unfolding register_platform_metrics pb_devinfo build_equations_variables
register_platform_metrics-pb_devinfo client devinfo before bits h4 h16 h256 layout = (
  record client {
    devname = fit 20 devinfo.devname;
    prettyname = fit 100 devinfo.prettyname;
    timestamp_frequency = devinfo.timestamp_frequency;
    devid = devinfo.devid;
    gen = devinfo.gen;
    gt_min_freq = devinfo.gt_min_freq;
    gt_max_freq = devinfo.gt_max_freq;
    topology = topology;
    n_eus = count_eus topology;
    n_eu_slices = count_slices topology;
    n_eu_sub_slices = count_subslices topology;
    slice_mask = get_or topology.slices_mask 0 0;
    subslice_mask = build_subslice_mask topology bits;
    eu_threads_count = count_eus topology * topology.n_threads_per_eu;
  },
  rw
      (
        copy_mask-whole 4 devinfo.topology.slices_mask h4,
        copy_mask-whole 16 devinfo.topology.subslices_mask h16,
        copy_mask-whole 256 devinfo.topology.eus_mask h256,
        layout,
      )
      refl,
  refl,
  refl,
  count_eus_lem topology,
  (count_slices_lem topology).0,
  (count_slices_lem topology).1,
  refl,
)
  where
    topology : DevTopology
    topology = record devinfo.topology { engines = replicate 5 0 }
