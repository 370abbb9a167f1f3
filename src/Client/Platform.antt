-- ===== src/Client/Platform.antt =====
-- The device as the client sees it: `register_platform_metrics` of lib/gputop-client-context.c.
pub mod Announced
use Prim.Native.String.{slice}
use gputop.Base.{
  ℕ, ◌-◌, Option, none, some, List, [], ◌∷◌, String, str_eq, if◌then◌else◌, Bytes, write, replicate,
  ◌>>=◌,
}
use gputop.Oa.Device.{DevInfo}
use gputop.Metrics.{
  Platform, hsw, bdw, chv, sklgt2, sklgt3, sklgt4, bxt, kblgt2, kblgt3, glk, cflgt2, cflgt3, cnl,
  icl, lkf, tgl,
}
use gputop.Server.Platform.{PbDevInfo}
use gputop.Client.Topology.{build_equations_variables}

abbrev devname_to_metric_func : List (String × Platform)
devname_to_metric_func =
    ("hsw", hsw)
    ∷ ("bdw", bdw)
    ∷ ("chv", chv)
    ∷ ("sklgt2", sklgt2)
    ∷ ("sklgt3", sklgt3)
    ∷ ("sklgt4", sklgt4)
    ∷ ("kblgt2", kblgt2)
    ∷ ("kblgt3", kblgt3)
    ∷ ("bxt", bxt)
    ∷ ("glk", glk)
    ∷ ("cflgt2", cflgt2)
    ∷ ("cflgt3", cflgt3)
    ∷ ("cnl", cnl)
    ∷ ("icl", icl)
    ∷ ("ehl", lkf)
    ∷ ("tgl", tgl)
    ∷ []

-- The loop over the table: the new `gen_metrics`, which stays as it was when no name fits.
abbrev pub find_metrics : String → Option Platform → List (String × Platform) → Option Platform
find_metrics devname before [] = before
find_metrics devname before ((name, metrics) ∷ rest) =
    let later = find_metrics devname before rest in
    if str_eq devname name then some metrics else later

unfoldable pub gen_metrics_for : String → Option Platform → Option Platform
gen_metrics_for devname before = find_metrics devname before devname_to_metric_func

-- An array of `size` bytes that was cleared and takes the bytes of a message; `none` is the
-- assertion on their number.
unfoldable pub copy_mask : ℕ → Bytes → Option Bytes
copy_mask size bytes = write (replicate size 0) 0 bytes

-- `snprintf` of a text into an array of `size` bytes.
abbrev pub fit : ℕ → String → String
fit size text = slice text 0 (size - 1)

-- `register_platform_metrics`, on the `devinfo` and the `gen_metrics` of the context.
unfoldable pub register_platform_metrics :
    DevInfo → Option Platform → PbDevInfo → Option (DevInfo × Option Platform)
register_platform_metrics devinfo before pb =
    let devname = fit 20 pb.devname in
    copy_mask 4 pb.topology.slices_mask >>= λ slices.
    copy_mask 16 pb.topology.subslices_mask >>= λ subslices.
    copy_mask 256 pb.topology.eus_mask >>= λ eus.
    build_equations_variables (record devinfo {
      devname = devname;
      prettyname = fit 100 pb.prettyname;
      timestamp_frequency = pb.timestamp_frequency;
      devid = pb.devid;
      gen = pb.gen;
      gt_min_freq = pb.gt_min_freq;
      gt_max_freq = pb.gt_max_freq;
      topology = record {
        max_slices = pb.topology.max_slices;
        max_subslices = pb.topology.max_subslices;
        max_eus_per_subslice = pb.topology.max_eus_per_subslice;
        n_threads_per_eu = pb.topology.n_threads_per_eu;
        slices_mask = slices;
        subslices_mask = subslices;
        eus_mask = eus;
        engines = replicate 5 0;
      };
    })
    >>= λ built. some (built, gen_metrics_for devname before)
