-- ===== src/Client/Timeline.antt =====
-- The tracepoints of all processors on one time line: `add_tracepoint_stream_data` of
-- lib/gputop-client-context.c, up to the update of the processes.
-- The lists are kept from tail to head, the way the insertion walks them. A point is known by its
-- serial number, which stands for its address.
pub mod Ordered
pub mod Message
mod Examples
use gputop.Base.{ℕ, ◌+◌, ◌-◌, Bool, List, [], ◌∷◌, Bytes, ltb, ◌==◌, if◌then◌else◌, sub64}

-- `struct gputop_perf_tracepoint_data`; `tp` is the index of its tracepoint.
pub record Point : Type 0 where
  pub serial : ℕ
  pub tp : ℕ
  pub cpu : ℕ
  pub time : ℕ
  pub payload : Bytes

-- `perf_tracepoints_data`, and the `data` list of each tracepoint.
pub record Timeline : Type 0 where
  pub points : List Point
  pub tp_points : ℕ → List Point

-- The walk from the tail to the last point that is not later, and `list_add` behind it.
unfoldable pub add_sorted : Point → List Point → List Point
add_sorted p [] = p ∷ []
add_sorted p (q ∷ qs) =
    let further = q ∷ add_sorted p qs in if ltb p.time q.time then further else p ∷ q ∷ qs

-- Whether a point lies further before the end than the visible time line is long.
abbrev pub is_outside : (end_time max_length : ℕ) → Point → Bool
is_outside end_time max_length p = ltb max_length (sub64 end_time p.time)

-- One more point at the tail of a list whose head was trimmed to `kept`.
abbrev pub trim_step : Bool → Point → List Point × List Point → List Point × List Point
trim_step outside p (k ∷ ks, freed) = (p ∷ k ∷ ks, freed)
trim_step outside p ([], freed) = if outside then ([], p ∷ freed) else (p ∷ [], freed)

-- The loop that takes points off the head: the points that stay, and those that are freed.
unfoldable pub trim : (end_time max_length : ℕ) → List Point → List Point × List Point
trim end_time max_length [] = ([], [])
trim end_time max_length (p ∷ ps) =
    trim_step (is_outside end_time max_length p) p (trim end_time max_length ps)

-- `list_del` of a point.
unfoldable pub unlink : List Point → ℕ → List Point
unlink [] serial = []
unlink (p ∷ ps) serial = let rest = p ∷ unlink ps serial in if p.serial == serial then ps else rest

unfoldable pub unlink_all : List Point → (ℕ → List Point) → ℕ → List Point
unlink_all [] tp_points = tp_points
unlink_all (p ∷ ps) tp_points =
    unlink_all ps (λ tp. if tp == p.tp then unlink (tp_points tp) p.serial else tp_points tp)

abbrev pub time_of_tail : Point → List Point → ℕ
time_of_tail p [] = p.time
time_of_tail p (q ∷ qs) = q.time

-- `add_tracepoint_stream_data`: the new time line and the points that were freed.
unfoldable pub add_tracepoint : ℕ → Timeline → Point → Timeline × List Point
add_tracepoint max_length timeline p =
    let points = add_sorted p timeline.points in
    let trimmed = trim (time_of_tail p points) max_length points in
    let own = add_sorted p (timeline.tp_points p.tp) in
    (
      record {
        points = trimmed.0;
        tp_points = unlink_all trimmed.1 (λ tp. if tp == p.tp then own else timeline.tp_points tp);
      },
      trimmed.1,
    )
