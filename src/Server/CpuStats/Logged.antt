-- ===== src/Server/CpuStats/Logged.antt =====
-- What is logged between two flushes, as long as the buffer does not fill.
use gputop.Base.{
  ℕ, ◌+◌, ◌*◌, ◌/◌, ◌≤◌, ◌<◌, ◌≡◌, refl, sym, ap, ap₂, ◌∙◌, arith, true, false, Option, some, List,
  [], ◌∷◌, ◌++◌, map, ltb, leb, ◌==◌, length, take, drop, ◌>>=◌, All, length-append, length-drop,
  take_all, take-append_le, drop-append_ge,
}
use native.Mathlib.Nat.{mul-div_cancel}
use gputop.Server.CpuStats.{
  CpuStat, CpuStatsSet, CpuStream, pb_cpu_stats, pb_entry, store_stats, mark_full, log_cpu_stats,
  stats_set, send_sets, flush_cpu_stats, log_all,
}
use gputop.Server.CpuStats.Sets.{flat, length-map-some, append_nil, drop-drop, assoc, length-flat}

-- A stream whose buffer starts with some statistics, with room for more.
abbrev holding : CpuStream → List (Option CpuStat) → List (Option CpuStat) → CpuStream
holding s front back = record s {
  stats_buf = front ++ back;
  stats_buf_pos = length front;
  stats_buf_full = false;
}

log_step :
    (s : CpuStream) (set : List CpuStat) (front back : List (Option CpuStat))
    → length front + length set < s.stats_buf_len
    → length set ≤ length back
    → log_cpu_stats set (holding s front back)
      ≡ some (holding s (front ++ map some set) (drop (length set) back))
unfolding log_cpu_stats store_stats mark_full
log_step s set front back h r =
    let l = length-append {0} front back in
    let l' = length-append {0} front (map some set) in
    let m = length-map-some set in
    let e1 : ltb (length front) s.stats_buf_len ≡ true = ground arith in
    let e2 : leb (length front + length set) (length (front ++ back)) ≡ true = ground arith in
    let e3 : leb s.stats_buf_len (length front + length set) ≡ false = ground arith in
    let end : length front + length set ≡ length (front ++ map some set) = omega (arith, l', m) in
    let before : take (length front) (front ++ back) ≡ front =
      take-append_le (length front) front back (omega arith)
      ∙ take_all (length front) front (omega arith) in
    let after : drop (length front + length set) (front ++ back) ≡ drop (length set) back =
      drop-append_ge (length front + length set) (length set) front back refl in
    let buf : take (length front) (front ++ back)
          ++ (map some set ++ drop (length front + length set) (front ++ back))
        ≡ (front ++ map some set) ++ drop (length set) back =
      ap₂ (λ f b. f ++ (map some set ++ b)) before after
      ∙ sym (assoc front (map some set) (drop (length set) back)) in
    rw (e1, e2, e3)
      (ap₂ (λ b p. some (record s { stats_buf = b; stats_buf_pos = p; stats_buf_full = false })) buf
        end)

pub log_all_lem :
    (n : ℕ) (sets : List (List CpuStat)) (s : CpuStream) (front back : List (Option CpuStat))
    → All (λ set. length set ≡ n) sets
    → length front + length sets * n < s.stats_buf_len
    → length sets * n ≤ length back
    → log_all sets (holding s front back)
      ≡ some (holding s (front ++ flat sets) (drop (length sets * n) back))
unfolding log_all flat
log_all_lem n [] s front back h room fits =
    let e : 0 ≡ 0 * n = omega arith in
    ap₂ (λ f k. some (holding s f (drop k back))) (sym (append_nil front)) e
log_all_lem n (set ∷ sets) s front back h room fits =
    let m = length-map-some set in
    let l = length-append {0} front (map some set) in
    let d = length-drop {0} (length set) back in
    let q : length (set ∷ sets) * n ≡ n + length sets * n = grind arith in
    let step =
      log_step s set front back (omega (arith, room, q, h.0)) (omega (arith, fits, q, h.0)) in
    let ih =
      log_all_lem n sets s (front ++ map some set) (drop (length set) back) h.1
        (omega (arith, room, q, l, m, h.0)) (omega (arith, fits, d, q, h.0)) in
    let back' : drop (length sets * n) (drop (length set) back)
        ≡ drop (length (set ∷ sets) * n) back =
      drop-drop (length set) (length sets * n) back
      ∙ ap (λ k. drop k back) (omega (arith, q, h.0)) in
    ap (λ o. o >>= log_all sets) step
    ∙ ih
    ∙ ap₂ (λ f b. some (holding s f b)) (assoc front (map some set) (flat sets)) back'

-- The message of some statistics.
abbrev pub message : ℕ → List CpuStat → CpuStatsSet
message id stats = record { id = id; cpus = map (λ stat. some (pb_cpu_stats stat)) stats }

map-pb_entry :
    (stats : List CpuStat)
    → map pb_entry (map some stats) ≡ map (λ stat. some (pb_cpu_stats stat)) stats
map-pb_entry [] = refl
map-pb_entry (x ∷ xs) = ap (λ l. some (pb_cpu_stats x) ∷ l) (map-pb_entry xs)

send_sets_lem :
    (n : ℕ) (sets : List (List CpuStat)) (s : CpuStream) (front back : List (Option CpuStat))
    (pos : ℕ)
    → All (λ set. length set ≡ n) sets
    → s.stats_buf ≡ front ++ (flat sets ++ back)
    → pos ≡ length front
    → pos + length sets * n < s.stats_buf_len
    → send_sets n s (length sets) pos ≡ some (map (message s.id) sets)
unfolding send_sets stats_set flat
send_sets_lem n [] s front back pos h e p room = refl
send_sets_lem n (set ∷ sets) s front back pos h e p room =
    let m = length-map-some set in
    let rest = flat sets ++ back in
    let e' : s.stats_buf ≡ front ++ (map some set ++ rest) =
      e ∙ ap (λ l. front ++ l) (assoc (map some set) (flat sets) back) in
    let e'' : s.stats_buf ≡ (front ++ map some set) ++ rest =
      e' ∙ sym (assoc front (map some set) rest) in
    let l = length-append {0} (front ++ map some set) rest in
    let l' = length-append {0} front (map some set) in
    let total : length s.stats_buf ≡ length ((front ++ map some set) ++ rest) = ap length e'' in
    let q : length (set ∷ sets) * n ≡ n + length sets * n = grind arith in
    let e1 : leb (pos + n) (length s.stats_buf) ≡ true = ground (arith, l, l', m, total, h.0, p) in
    let e2 : leb s.stats_buf_len (pos + n) ≡ false = ground (arith, room, q) in
    let read : take n (drop pos s.stats_buf) ≡ map some set =
      ap (λ b. take n (drop pos b)) e'
      ∙ ap (take n) (drop-append_ge pos 0 front (map some set ++ rest) (omega arith))
      ∙ take-append_le n (map some set) rest (omega (arith, m, h.0))
      ∙ take_all n (map some set) (omega (arith, m, h.0)) in
    let ih =
      send_sets_lem n sets s (front ++ map some set) back (pos + n) h.1 e''
        (omega (arith, p, l', m, h.0)) (omega (arith, room, q)) in
    rw (e1, e2)
      (rw read (
        ap₂ (λ c o. o >>= λ sets'. some (record { id = s.id; cpus = c } ∷ sets')) (map-pb_entry set)
          ih))

-- A stream after a flush.
abbrev pub emptied : CpuStream → CpuStream
emptied s = record s { stats_buf_pos = 0; stats_buf_full = false }

flush_holding :
    (n : ℕ) (sets : List (List CpuStat)) (s : CpuStream) (back : List (Option CpuStat))
    → 0 < n
    → All (λ set. length set ≡ n) sets
    → length sets * n < s.stats_buf_len
    → flush_cpu_stats n (holding s (flat sets) back)
      ≡ some (map (message s.id) sets, emptied (holding s (flat sets) back))
unfolding flush_cpu_stats flat
flush_holding n [] s back pos h room = refl
flush_holding n (set ∷ sets) s back pos h room =
    let k = length (set ∷ sets) in
    let l = length-flat n (set ∷ sets) h in
    let q : k * n ≡ n + length sets * n = grind arith in
    let e1 : (length (flat (set ∷ sets)) == 0) ≡ false = ground (arith, l, q, pos) in
    let e2 : length (flat (set ∷ sets)) / n ≡ k = ap (λ x. x / n) l ∙ mul-div_cancel k pos in
    let send =
      send_sets_lem n (set ∷ sets) (holding s (flat (set ∷ sets)) back) [] back 0 h refl refl
        (omega (arith, room)) in
    rw (e1, e2)
      (ap (λ o. o >>= λ sets'. some (sets', emptied (holding s (flat (set ∷ sets)) back))) send)

-- Statistics logged after a flush, as long as they do not fill the buffer, are sent by the next
-- flush as one message for each time the timer fired, complete and in the order in which they were
-- read, with nothing read or written out of bounds; the stream is then as after a flush again.
pub flush_cpu_stats-logged :
    (n : ℕ) (sets : List (List CpuStat)) (s : CpuStream)
    → 0 < n
    → s.stats_buf_pos ≡ 0
    → s.stats_buf_full ≡ false
    → length s.stats_buf ≡ s.stats_buf_len * n
    → All (λ set. length set ≡ n) sets
    → length sets * n < s.stats_buf_len
    → (s' : CpuStream) × ((log_all sets s >>= flush_cpu_stats n)
        ≡ some (map (message s.id) sets, s'))
      × (s'.stats_buf_pos ≡ 0)
      × (s'.stats_buf_full ≡ false)
      × (length s'.stats_buf ≡ length s.stats_buf)
unfolding flush_cpu_stats
flush_cpu_stats-logged n sets s pos at idle size h room =
    let front = flat sets in
    let back = drop (length sets * n) s.stats_buf in
    let start : s ≡ holding s [] s.stats_buf =
      ap₂ (λ p b. record s { stats_buf_pos = p; stats_buf_full = b }) at idle in
    let wide : s.stats_buf_len ≤ s.stats_buf_len * n = grind arith in
    let fits : length sets * n ≤ length s.stats_buf = omega (arith, wide, room, size) in
    let logged : log_all sets s ≡ some (holding s front back) =
      ap (log_all sets) start ∙ log_all_lem n sets s [] s.stats_buf h (omega (arith, room)) fits in
    (
      emptied (holding s front back),
      ap (λ o. o >>= flush_cpu_stats n) logged ∙ flush_holding n sets s back pos h room,
      refl,
      refl,
      omega (
        arith,
        length-append {0} front back,
        length-flat n sets h,
        length-drop {0} (length sets * n) s.stats_buf,
        fits,
      ),
    )
