-- ===== src/Server/Platform.antt =====
-- What the server says of the device: the names that `init_dev_info` of server/gputop-perf.c
-- gives it, and the device part of `handle_get_features` in server/gputop-server.c.
use gputop.Base.{ℕ, Bool, Option, none, some, List, String, Bytes, ◌==◌, if◌then◌else◌}
use gputop.Oa.Device.{DevInfo}
use gputop.Metrics.{
  GenDeviceInfo, Platform, hsw, bdw, chv, sklgt2, sklgt3, sklgt4, bxt, kblgt2, kblgt3, glk, cflgt2,
  cflgt3, cnl, icl, lkf,
}

-- The `Gputop__DevTopology` and `Gputop__DevInfo` messages of data/gputop.proto.
pub record PbDevTopology : Type 0 where
  pub max_slices : ℕ
  pub max_subslices : ℕ
  pub max_eus_per_subslice : ℕ
  pub n_threads_per_eu : ℕ
  pub slices_mask : Bytes
  pub subslices_mask : Bytes
  pub eus_mask : Bytes
  pub engines : List ℕ

pub record PbDevInfo : Type 0 where
  pub devid : ℕ
  pub gen : ℕ
  pub timestamp_frequency : ℕ
  pub gt_min_freq : ℕ
  pub gt_max_freq : ℕ
  pub devname : String
  pub prettyname : String
  pub topology : PbDevTopology

-- The names of a device and the metrics that are registered for it.
pub record Named : Type 0 where
  pub devname : String
  pub prettyname : String
  pub gen_metrics : Platform

abbrev named : String → String → Platform → Option Named
named devname prettyname metrics =
    some (record { devname = devname; prettyname = prettyname; gen_metrics = metrics })

-- The `switch` statements on `devinfo->gt`.
abbrev name_skylake : ℕ → Option Named
name_skylake gt =
    if gt == 2
    then named "sklgt2" "Skylake GT2" sklgt2
    else if gt == 3
    then named "sklgt3" "Skylake GT3" sklgt3
    else if gt == 4
    then named "sklgt4" "Skylake GT4" sklgt4
    else none

abbrev name_kabylake : ℕ → Option Named
name_kabylake gt =
    if gt == 2
    then named "kblgt2" "Kabylake GT2" kblgt2
    else if gt == 3
    then named "kblgt3" "Kabylake GT3" kblgt3
    else none

abbrev name_coffeelake : ℕ → Option Named
name_coffeelake gt =
    if gt == 2
    then named "cflgt2" "Coffeelake GT2" cflgt2
    else if gt == 3
    then named "cflgt3" "Coffeelake GT3" cflgt3
    else none

-- The chain of tests in `init_dev_info`; `none` is its result false.
abbrev pub name_platform : GenDeviceInfo → Option Named
name_platform devinfo =
    if devinfo.is_haswell
    then named "hsw" "Haswell" hsw
    else if devinfo.is_broadwell
    then named "bdw" "Broadwell" bdw
    else if devinfo.is_cherryview
    then named "chv" "Cherryview" chv
    else if devinfo.is_skylake
    then name_skylake devinfo.gt
    else if devinfo.is_broxton
    then named "bxt" "Broxton" bxt
    else if devinfo.is_kabylake
    then name_kabylake devinfo.gt
    else if devinfo.is_geminilake
    then named "glk" "Geminilake" glk
    else if devinfo.is_coffeelake
    then name_coffeelake devinfo.gt
    else if devinfo.is_cannonlake
    then named "cnl" "Cannonlake" cnl
    else if devinfo.is_elkhartlake
    then named "EHL" "Elkhartlake" lkf
    else if devinfo.gen == 11
    then named "icl" "Icelake" icl
    else none

abbrev rename_fake : Option Named → Option Named
rename_fake none = none
rename_fake (some n) =
    some (record n { devname = "bdw"; prettyname = "Fake Broadwell Intel device" })

-- The names that `init_dev_info` leaves in `gputop_devinfo`, and `gen_metrics`.
unfoldable pub init_names : Bool → GenDeviceInfo → Option Named
init_names fake_mode devinfo =
    if fake_mode then rename_fake (name_platform devinfo) else name_platform devinfo

-- The device part of the features message; each mask is sent with its whole array.
unfoldable pub pb_devinfo : DevInfo → PbDevInfo
pb_devinfo devinfo =
    let devtopology = devinfo.topology in
    record {
      devid = devinfo.devid;
      gen = devinfo.gen;
      timestamp_frequency = devinfo.timestamp_frequency;
      gt_min_freq = devinfo.gt_min_freq;
      gt_max_freq = devinfo.gt_max_freq;
      devname = devinfo.devname;
      prettyname = devinfo.prettyname;
      topology = record {
        max_slices = devtopology.max_slices;
        max_subslices = devtopology.max_subslices;
        max_eus_per_subslice = devtopology.max_eus_per_subslice;
        n_threads_per_eu = devtopology.n_threads_per_eu;
        slices_mask = devtopology.slices_mask;
        subslices_mask = devtopology.subslices_mask;
        eus_mask = devtopology.eus_mask;
        engines = devtopology.engines;
      };
    }
