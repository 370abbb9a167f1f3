-- ===== src/Client/Timeline/Ordered.antt =====
-- The time line stays ordered and inside its window.
use gputop.Base.{
  ℕ, ◌-◌, ◌^◌, ◌≤◌, ◌<◌, ◌≡◌, refl, ap, sym, List, [], ◌∷◌, ◌++◌, All, ltb, arith, Bool-cases, inl,
  inr,
}
use mathlib.Core.Path.{subst}
use gputop.Client.Timeline.{
  Point, Timeline, add_sorted, is_outside, trim_step, trim, add_tracepoint, time_of_tail,
}

-- No point of the list is later than `t`.
abbrev pub NotAfter : ℕ → List Point → Type 0
NotAfter t ps = All (λ q. q.time ≤ t) ps

-- From tail to head, times do not grow.
unfoldable pub Ordered : List Point → Type 0
Ordered [] = Unit
Ordered (p ∷ ps) = NotAfter p.time ps × Ordered ps

NotAfter-mono : (s t : ℕ) (ps : List Point) → s ≤ t → NotAfter s ps → NotAfter t ps
NotAfter-mono s t [] h below = tt
NotAfter-mono s t (p ∷ ps) h below = (omega (arith, below.0), NotAfter-mono s t ps h below.1)

NotAfter-add_sorted :
    (t : ℕ) (p : Point) (ps : List Point)
    → p.time ≤ t
    → NotAfter t ps
    → NotAfter t (add_sorted p ps)
unfolding add_sorted
NotAfter-add_sorted t p [] h below = (h, tt)
NotAfter-add_sorted t p (q ∷ qs) h below = elim (Bool-cases (ltb p.time q.time)) [
  | inl later ↦ rw later (below.0, NotAfter-add_sorted t p qs h below.1)
  | inr not_later ↦ rw not_later (h, below)
]

add_sorted-Ordered : (p : Point) (ps : List Point) → Ordered ps → Ordered (add_sorted p ps)
unfolding add_sorted Ordered
add_sorted-Ordered p [] o = (tt, tt)
add_sorted-Ordered p (q ∷ qs) o = elim (Bool-cases (ltb p.time q.time)) [
  | inl later ↦
      let h : p.time < q.time = ground arith in
      rw later (NotAfter-add_sorted q.time p qs (omega arith) o.0, add_sorted-Ordered p qs o.1)
  | inr not_later ↦
      let h : q.time ≤ p.time = ground arith in
      rw not_later ((h, NotAfter-mono q.time p.time qs h o.0), o)
]

-- A trimmed list, cut into what stays, inside the window, and what is freed, outside it.
abbrev pub Trimmed : (end_time max_length : ℕ) → List Point → List Point × List Point → Type 0
Trimmed end_time max_length ps r =
    (r.0 ++ r.1 ≡ ps)
    × Ordered r.0
    × All (λ q. end_time - q.time ≤ max_length) r.0
    × All (λ q. max_length < end_time - q.time) r.1

trim_step-Trimmed :
    (end_time max_length : ℕ) (p : Point) (ps : List Point) (r : List Point × List Point)
    → end_time < 2 ^ 64
    → p.time ≤ end_time
    → NotAfter p.time ps
    → Trimmed end_time max_length ps r
    → Trimmed end_time max_length (p ∷ ps) (trim_step (is_outside end_time max_length p) p r)
unfolding Ordered
trim_step-Trimmed e m p ps (k ∷ ks, freed) fits below before t =
    let all_before : NotAfter p.time (k ∷ (ks ++ freed)) =
      subst (λ xs. NotAfter p.time xs) (sym t.0) before in
    let h : k.time ≤ p.time = all_before.0 in
    (
      ap (λ xs. p ∷ xs) t.0,
      ((h, NotAfter-mono k.time p.time ks h t.1.0), t.1),
      (omega (arith, t.2.0), t.2),
      t.3,
    )
trim_step-Trimmed e m p ps ([], freed) fits below before t = elim (Bool-cases (is_outside e m p)) [
  | inl out ↦ rw out (ap (λ xs. p ∷ xs) t.0, tt, tt, (ground arith, t.3))
  | inr inside ↦ rw inside (ap (λ xs. p ∷ xs) t.0, (tt, tt), (ground arith, tt), t.3)
]

trim-Trimmed :
    (end_time max_length : ℕ) (ps : List Point)
    → end_time < 2 ^ 64
    → NotAfter end_time ps
    → Ordered ps
    → Trimmed end_time max_length ps (trim end_time max_length ps)
unfolding trim Ordered
trim-Trimmed e m [] fits below o = (refl, tt, tt, tt)
trim-Trimmed e m (p ∷ ps) fits below o =
    trim_step-Trimmed e m p ps (trim e m ps) fits below.0 o.0 (trim-Trimmed e m ps fits below.1 o.1)

-- `p` stands in `qs` where the points of `ps` that are later end.
abbrev pub Inserted : Point → List Point → List Point → Type 0
Inserted p ps qs =
    (later before : List Point) × (ps ≡ later ++ before)
    × (qs ≡ later ++ (p ∷ before))
    × All (λ q. p.time < q.time) later

add_sorted-Inserted : (p : Point) (ps : List Point) → Inserted p ps (add_sorted p ps)
unfolding add_sorted
add_sorted-Inserted p [] = ([], [], refl, refl, tt)
add_sorted-Inserted p (q ∷ qs) = elim (Bool-cases (ltb p.time q.time)) [
  | inl later ↦
      let rest = add_sorted-Inserted p qs in
      rw later (
        q ∷ rest.0,
        rest.1,
        ap (λ xs. q ∷ xs) rest.2,
        ap (λ xs. q ∷ xs) rest.3,
        (ground arith, rest.4),
      )
  | inr not_later ↦ rw not_later ([], q ∷ qs, refl, refl, tt)
]

NotAfter-time_of_tail : (p : Point) (ps : List Point) → Ordered ps → NotAfter (time_of_tail p ps) ps
unfolding Ordered
NotAfter-time_of_tail p [] o = tt
NotAfter-time_of_tail p (q ∷ qs) o = (omega arith, o.0)

time_of_tail_below :
    (t : ℕ) (p : Point) (ps : List Point) → p.time ≤ t → NotAfter t ps → time_of_tail p ps ≤ t
time_of_tail_below t p [] h below = h
time_of_tail_below t p (q ∷ qs) h below = below.0

-- For an ordered time line of 64-bit times, the new point is put behind all points that are not
-- later. Then the points that lie further before the last one than the window is long are taken
-- off the head, and no others: what stays is ordered and inside the window, and every point that
-- is freed, the new one included if it comes too late, lies outside.
pub add_tracepoint-Trimmed :
    (max_length : ℕ) (timeline : Timeline) (p : Point)
    → Ordered timeline.points
    → NotAfter (2 ^ 64 - 1) timeline.points
    → p.time < 2 ^ 64
    → (points : List Point) × Inserted p timeline.points points
      × Trimmed (time_of_tail p points) max_length points (
        (add_tracepoint max_length timeline p).0.points,
        (add_tracepoint max_length timeline p).1,
      )
unfolding add_tracepoint
add_tracepoint-Trimmed max_length timeline p o below fits =
    let points = add_sorted p timeline.points in
    let ordered = add_sorted-Ordered p timeline.points o in
    let in_range : time_of_tail p points ≤ 2 ^ 64 - 1 =
      time_of_tail_below (2 ^ 64 - 1) p points (omega arith)
        (NotAfter-add_sorted (2 ^ 64 - 1) p timeline.points (omega arith) below) in
    (
      points,
      add_sorted-Inserted p timeline.points,
      trim-Trimmed (time_of_tail p points) max_length points (omega (arith, in_range))
          (NotAfter-time_of_tail p points ordered) ordered,
    )
