-- ===== src/Metrics.antt =====
-- lib/gputop-oa-metrics.c: which metrics a device has, the tree of counter groups and the metric
-- sets of a generation.
pub mod Tree
pub mod Sets
mod Examples
use gputop.Base.{
  ℕ, Bool, true, false, Option, none, some, List, [], ◌∷◌, ◌++◌, Bytes, bytes_eq, ◌==◌, ltb, length,
  if◌then◌else◌, ◌>>=◌,
}
use gputop.Oa.Device.{MetricSet}

-- The fields of mesa's `struct gen_device_info` that are read.
pub record GenDeviceInfo : Type 0 where
  pub gen : ℕ
  pub gt : ℕ
  pub is_haswell : Bool
  pub is_broadwell : Bool
  pub is_cherryview : Bool
  pub is_skylake : Bool
  pub is_broxton : Bool
  pub is_kabylake : Bool
  pub is_geminilake : Bool
  pub is_coffeelake : Bool
  pub is_cannonlake : Bool
  pub is_elkhartlake : Bool

-- The generated `gputop_oa_get_metrics_*` functions, one for each platform.
pub data Platform : Type 0 where
  hsw bdw chv sklgt2 sklgt3 sklgt4 bxt kblgt2 kblgt3 glk cflgt2 cflgt3 cnl icl lkf tgl : Platform

-- The `switch` on `devinfo->gt` of Skylake.
abbrev skylake : ℕ → Option Platform
skylake gt =
    if gt == 2
    then some sklgt2
    else if gt == 3
    then some sklgt3
    else if gt == 4
    then some sklgt4
    else none

-- Those of Kabylake and Coffeelake.
abbrev by_gt : Platform → Platform → ℕ → Option Platform
by_gt gt2 gt3 gt = if gt == 2 then some gt2 else if gt == 3 then some gt3 else none

-- `gputop_gen_for_devinfo`: the platform whose metrics are returned, `none` for NULL.
unfoldable pub gen_for_devinfo : GenDeviceInfo → Option Platform
gen_for_devinfo devinfo =
    if devinfo.is_haswell
    then some hsw
    else if devinfo.is_broadwell
    then some bdw
    else if devinfo.is_cherryview
    then some chv
    else if devinfo.is_skylake
    then skylake devinfo.gt
    else if devinfo.is_broxton
    then some bxt
    else if devinfo.is_kabylake
    then by_gt kblgt2 kblgt3 devinfo.gt
    else if devinfo.is_geminilake
    then some glk
    else if devinfo.is_coffeelake
    then by_gt cflgt2 cflgt3 devinfo.gt
    else if devinfo.is_cannonlake
    then some cnl
    else if devinfo.gen == 11
    then some icl
    else if devinfo.gen == 12
    then some tgl
    else none

-- `struct gputop_counter_group`; a counter is its symbol name.
mutual
  pub data Group : Type 0 where
    group : Bytes → List Bytes → Groups → Group

  pub data Groups : Type 0 where
    nil : Groups
    cons : Group → Groups → Groups

abbrev pub name_of : Group → Bytes
name_of (group name counters groups) = name

abbrev pub counters_of : Group → List Bytes
counters_of (group name counters groups) = counters

abbrev pub groups_of : Group → Groups
groups_of (group name counters groups) = groups

-- `gputop_counter_group_new`, before it is linked to its parent.
abbrev pub counter_group_new : Bytes → Group
counter_group_new name = group name [] nil

-- The loop over the children: `f` goes on in the first child called `name`, which is made at the
-- tail if there is none.
unfoldable pub in_child : Bytes → (Group → Group) → Groups → Groups
in_child name f nil = cons (f (counter_group_new name)) nil
in_child name f (cons g gs) =
    if bytes_eq (name_of g) name then cons (f g) gs else cons g (in_child name f gs)

-- The groups that a path names, one to a round of the `while` loop: the bytes up to the next
-- slash or the end. `acc` holds those of the current name that were passed.
unfoldable pub split_path : Bytes → Bytes → List Bytes
split_path acc [] = acc ∷ []
split_path acc (c ∷ []) = if c == b'/' then acc ∷ [] else (acc ++ (c ∷ [])) ∷ []
split_path acc (c ∷ d ∷ cs) =
    let next = split_path [] (d ∷ cs) in
    let longer = split_path (acc ++ (c ∷ [])) (d ∷ cs) in if c == b'/' then acc ∷ next else longer

-- The walk from a group along the names, and `list_addtail` at its end.
unfoldable pub add_along : List Bytes → Bytes → Group → Group
add_along [] counter (group name counters groups) = group name (counters ++ (counter ∷ [])) groups
add_along (n ∷ ns) counter (group name counters groups) =
    group name counters (in_child n (add_along ns counter) groups)

-- `sizeof(group_name)`.
abbrev pub max_name : ℕ
max_name = 128

abbrev all_fit : List Bytes → Bool
all_fit [] = true
all_fit (n ∷ ns) = if ltb (length n) max_name then all_fit ns else false

-- `gputop_gen_add_counter` on the root group. `none` is a name that overruns `group_name` or
-- fills it without a NUL, or the NULL group of an empty path.
unfoldable pub gen_add_counter : Group → Bytes → Bytes → Option Group
gen_add_counter root counter [] = none
gen_add_counter root counter (c ∷ cs) =
    let names = split_path [] (c ∷ cs) in
    if all_fit names then some (add_along names counter root) else none
