-- ===== src/Client/Timeline/Examples.antt =====
-- The theorem on the time line at a concrete input, and a test.
use gputop.Base.{ℕ, ◌≡◌, List, [], ◌∷◌, refl, arith}
use gputop.Client.Timeline.{Point, Timeline, add_sorted, trim, add_tracepoint, time_of_tail}
use gputop.Client.Timeline.Ordered.{Ordered, Inserted, Trimmed, add_tracepoint-Trimmed}

abbrev at_time : ℕ → ℕ → Point
at_time serial time = record { serial = serial; tp = 0; cpu = 0; time = time; payload = [] }

abbrev two_points : Timeline
two_points = record {
  points = at_time 2 1000 ∷ at_time 1 995 ∷ [];
  tp_points = λ tp. at_time 2 1000 ∷ at_time 1 995 ∷ [];
}

two_points-Ordered : Ordered two_points.points
unfolding Ordered
two_points-Ordered = ((omega arith, tt), (tt, tt))

-- A point that comes too late is freed at once.
late_test : (add_tracepoint 10 two_points (at_time 3 900)).1 ≡ at_time 3 900 ∷ []
unfolding add_tracepoint add_sorted trim
late_test = refl

add_tracepoint-Trimmed_example :
    (points : List Point) × Inserted (at_time 3 998) two_points.points points
    × Trimmed (time_of_tail (at_time 3 998) points) 4 points (
      (add_tracepoint 4 two_points (at_time 3 998)).0.points,
      (add_tracepoint 4 two_points (at_time 3 998)).1,
    )
add_tracepoint-Trimmed_example =
    add_tracepoint-Trimmed 4 two_points (at_time 3 998) two_points-Ordered
      (omega arith, (omega arith, tt)) (omega arith)
