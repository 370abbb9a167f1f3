-- ===== src/Client/Timeline/Message/Added.antt =====
-- A record for the time line of a client: what becomes of one.
use mathlib.Core.Path.{subst}
use mathlib.Core.List.{Perm, perm_middle, append_assoc}
use native.Mathlib.Nat.{pow-suc}
use gputop.Base.{
  ℕ, zero, suc, ◌+◌, ◌-◌, ◌^◌, ◌≤◌, ◌<◌, ◌≡◌, ◌⊎◌, inl, inr, refl, sym, ap, ◌∙◌, arith, false, none,
  some, List, [], ◌∷◌, ◌++◌, Bytes, length, get_or, All, All-get_or, ◌==◌, read_lem, ◌>>=◌, Ensures,
  Runs, Ensures-some, Ensures-of, Ensures-bind, Ensures-maybe, Ensures-if,
}
use gputop.Client.Timeline.{Point, Timeline, add_tracepoint, time_of_tail}
use gputop.Client.Timeline.Ordered.{NotAfter, Ordered, add_tracepoint-Trimmed}
use gputop.Client.Timeline.Message.{
  le, TpStream, Processes, Received, point_of, get_process_info, assign_process, field32,
  update_process, was_freed, add_received,
}

-- A list of numbers below 256.
abbrev pub IsBytes : Bytes → Type 0
IsBytes bytes = All (λ b. b < 256) bytes

le-below : (n : ℕ) (bytes : Bytes) (off : ℕ) → IsBytes bytes → le n bytes off < 256 ^ n
unfolding le
le-below zero bytes off h = omega arith
le-below (suc n) bytes off h =
    let first : get_or bytes off 0 < 256 = All-get_or (λ b. b < 256) bytes off 0 (omega arith) h in
    omega (arith, first, le-below n bytes (off + 1) h, pow-suc 256 n)

NotAfter-prefix : (t : ℕ) (ps qs : List Point) → NotAfter t (ps ++ qs) → NotAfter t ps
NotAfter-prefix t [] qs h = tt
NotAfter-prefix t (p ∷ ps) qs h = (h.0, NotAfter-prefix t ps qs h.1)

NotAfter-insert :
    (t : ℕ) (p : Point) (ps qs : List Point)
    → p.time ≤ t
    → NotAfter t (ps ++ qs)
    → NotAfter t (ps ++ (p ∷ qs))
NotAfter-insert t p [] qs h below = (h, below)
NotAfter-insert t p (q ∷ ps) qs h below = (below.0, NotAfter-insert t p ps qs h below.1)

-- A time line in order, whose times have 64 bits.
pub record IsOrdered (ps : List Point) : Type 0 where
  pub order : Ordered ps
  pub words : NotAfter (2 ^ 64 - 1) ps

-- The fields of a record that are read lie inside it.
pub record HasFields (stream : TpStream) (bytes : Bytes) : Type 0 where
  pub process : (o : ℕ) → stream.process_field ≡ some o → 24 + o ≤ length bytes
  pub hw_id : (o : ℕ) → stream.hw_id_field ≡ some o → 24 + o ≤ length bytes

-- The window of times from `lo` on.
abbrev pub InWindow : ℕ → ℕ → ℕ → Type 0
InWindow lo max_length t = (lo ≤ t) × (t ≤ lo + max_length)

abbrev pub time_of : Bytes → ℕ
time_of bytes = le 8 bytes 8

-- No processes are looked for, or no point leaves the window.
abbrev pub IsSafe : ℕ → ℕ → TpStream → List Bytes → List Point → Type 0
IsSafe lo max_length stream records ps =
    (stream.process_field ≡ none)
    ⊎ (All (λ p. InWindow lo max_length p.time) ps
        × All (λ bytes. InWindow lo max_length (time_of bytes)) records)

field32-Ensures : (bytes : Bytes) (o : ℕ) → 24 + o ≤ length bytes → Runs (field32 bytes o)
unfolding field32
field32-Ensures bytes o h =
    Ensures-of _
      (ap (λ m. m >>= λ word. some (le 4 word 0)) (read_lem bytes (20 + o) 4 (omega (arith, h)))) tt

update_process-Ensures :
    (stream : TpStream) (o : ℕ) (bytes : Bytes) (p : Processes)
    → stream.process_field ≡ some o
    → HasFields stream bytes
    → Runs (update_process o stream.hw_id_field bytes p)
unfolding update_process
update_process-Ensures stream o bytes p e f =
    Ensures-bind (field32-Ensures bytes o (f.process o e)) (λ pid _.
      Ensures-if (pid == 0) (λ _. Ensures-some p tt)
        (λ _.
          Ensures-maybe stream.hw_id_field (λ _. Ensures-some (get_process_info pid p) tt)
            (λ o' e'.
              Ensures-bind (field32-Ensures bytes o' (f.hw_id o' e'))
                (λ hw_id _. Ensures-some (assign_process hw_id pid (get_process_info pid p)) tt))))

-- What a record does: its point joins the points that are kept or freed.
pub record Added (lo len : ℕ) (stream : TpStream) (ds : List Bytes) (p : Point) (r r' : Received)
    : Type 0 where
  pub order : IsOrdered r'.timeline.points
  pub next : r'.next ≡ r.next + 1
  pub kept : Perm (r'.timeline.points ++ r'.freed) (p ∷ (r.timeline.points ++ r.freed))
  pub safe : IsSafe lo len stream ds r'.timeline.points

All-insert :
    (P : Point → Type 0) (p : Point) (ps qs : List Point)
    → P p
    → All P (ps ++ qs)
    → All P (ps ++ (p ∷ qs))
All-insert P p [] qs h hs = (h, hs)
All-insert P p (q ∷ ps) qs h hs = (hs.0, All-insert P p ps qs h hs.1)

All-split : (P : Point → Type 0) (ps qs : List Point) → All P (ps ++ qs) → All P ps × All P qs
All-split P [] qs h = (tt, h)
All-split P (p ∷ ps) qs h = let rest = All-split P ps qs h.1 in ((h.0, rest.0), rest.1)

time_of_tail-window :
    (lo len : ℕ) (p : Point) (ps : List Point)
    → InWindow lo len p.time
    → All (λ q. InWindow lo len q.time) ps
    → time_of_tail p ps ≤ lo + len
time_of_tail-window lo len p [] h hs = h.1
time_of_tail-window lo len p (q ∷ ps) h hs = hs.0.1

-- Of points in the window none is freed.
none_freed :
    (lo len end_time serial : ℕ) (freed : List Point)
    → end_time ≤ lo + len
    → All (λ q. InWindow lo len q.time) freed
    → All (λ q. len < end_time - q.time) freed
    → was_freed serial freed ≡ false
unfolding was_freed
none_freed lo len end_time serial [] e hs os = refl
none_freed lo len end_time serial (q ∷ freed) e hs os = absurd (omega (arith, e, hs.0.0, os.0))

conserved :
    (p : Point) (kept out points later before ps freed : List Point)
    → kept ++ out ≡ points
    → points ≡ later ++ (p ∷ before)
    → ps ≡ later ++ before
    → Perm (kept ++ (out ++ freed)) (p ∷ (ps ++ freed))
conserved p kept out points later before ps freed e f g =
    let from : later ++ (p ∷ (before ++ freed)) ≡ kept ++ (out ++ freed) =
      sym (append_assoc later (p ∷ before) freed)
      ∙ ap (λ l. l ++ freed) (sym f ∙ sym e)
      ∙ append_assoc kept out freed in
    let to : p ∷ (later ++ (before ++ freed)) ≡ p ∷ (ps ++ freed) =
      ap (λ l. p ∷ l) (sym (append_assoc later before freed) ∙ ap (λ l. l ++ freed) (sym g)) in
    subst (λ l. Perm l (p ∷ (ps ++ freed))) from
      (subst (Perm (later ++ (p ∷ (before ++ freed)))) to (perm_middle later (before ++ freed)))

-- The time line after a record, and what its point is then.
timeline_after : ℕ → TpStream → Bytes → Received → Received
timeline_after len stream bytes r =
    let added = add_tracepoint len r.timeline (point_of stream r.next bytes) in
    record r { timeline = added.0; next = r.next + 1; freed = added.1 ++ r.freed }

module _ (lo len : ℕ) (stream : TpStream) (bytes : Bytes) (ds : List Bytes) (r : Received) where
  abbrev pub new_point : Point
  new_point = record {
    serial = r.next;
    tp = stream.tp;
    cpu = stream.cpu;
    time = time_of bytes;
    payload = bytes;
  }

  abbrev added : Timeline × List Point
  added = add_tracepoint len r.timeline (point_of stream r.next bytes)

  timeline-Added :
      IsBytes bytes
      → IsOrdered r.timeline.points
      → IsSafe lo len stream (bytes ∷ ds) r.timeline.points
      → Added lo len stream ds new_point r (timeline_after len stream bytes r)
        × ((stream.process_field ≡ none) ⊎ (was_freed r.next added.1 ≡ false))
  unfolding timeline_after point_of
  timeline-Added whole o safe =
      let p = new_point in
      let small : p.time < 2 ^ 64 = omega (arith, le-below 8 bytes 8 whole) in
      let (points, (later, before, split, inserted, _), (kept, order, _, out)) =
        add_tracepoint-Trimmed len r.timeline p o.order o.words small in
      let all : (P : Point → Type 0) → P p → All P r.timeline.points → All P points = λ P h hs.
        subst (All P) (sym inserted) (All-insert P p later before h (subst (All P) split hs)) in
      let parts : (P : Point → Type 0)
          → P p
          → All P r.timeline.points
          → All P added.0.points × All P added.1 =
        λ P h hs. All-split P added.0.points added.1 (subst (All P) (sym kept) (all P h hs)) in
      let words = parts (λ q. q.time ≤ 2 ^ 64 - 1) (omega (arith, small)) o.words in
      let facts : IsSafe lo len stream ds added.0.points
          → Added lo len stream ds p r (timeline_after len stream bytes r) =
        λ s. record {
          order = record { order = order; words = words.0 };
          next = refl;
          kept =
              conserved p added.0.points added.1 points later before r.timeline.points r.freed kept
                inserted split;
          safe = s;
        } in
      elim safe [
        | inl off ↦ (facts (inl off), inl off)
        | inr w ↦
            let W : Point → Type 0 = λ q. InWindow lo len q.time in
            let ws = parts W w.1.0 w.0 in
            (
              facts (inr (ws.0, w.1.1)),
              inr (
                  none_freed lo len (time_of_tail p points) r.next added.1
                    (time_of_tail-window lo len p points w.1.0 (all W w.1.0 w.0)) ws.1 out),
            )
      ]

  pub add_received-Added :
      IsBytes bytes
      → HasFields stream bytes
      → IsOrdered r.timeline.points
      → IsSafe lo len stream (bytes ∷ ds) r.timeline.points
      → Ensures (add_received len stream bytes r) (Added lo len stream ds new_point r)
  unfolding add_received timeline_after
  add_received-Added whole f o safe =
      let (a, alive) = timeline-Added whole o safe in
      let r1 = timeline_after len stream bytes r in
      Ensures-maybe stream.process_field (λ _. Ensures-some r1 a)
        (λ offset e.
          Ensures-if (was_freed r.next added.1)
            (λ gone. elim alive [
              | inl off ↦ absurd (cc (off, e))
              | inr here ↦ absurd (cc (gone, here))
            ])
            (λ _.
              Ensures-bind (update_process-Ensures stream offset bytes r.processes e f)
                (λ processes _.
                  Ensures-some (record r1 { processes = processes })
                    (record { order = a.order; next = a.next; kept = a.kept; safe = a.safe }))))
