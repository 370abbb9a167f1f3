-- ===== src/Client/Timeline/Message/Records.antt =====
-- A message of whole records adds each of them once, in their order.
use mathlib.Core.Path.{subst}
use mathlib.Core.List.{Perm, perm_middle}
use mathlib.Core.List.Perm
use gputop.Base.{
  ℕ, zero, suc, ◌+◌, ◌*◌, ◌≤◌, ◌<◌, ◌≡◌, refl, ap, ap₂, ◌∙◌, arith, false, some, List, [], ◌∷◌,
  ◌++◌, Bytes, length, get_or, drop, take, ltb, ◌==◌, All, read, read_lem, maybe, ◌>>=◌,
  length-append, Ensures, Ensures-of, Ensures-bind, Ensures-some, Ensures-mono,
}
use gputop.Base.Table.{Table}
use gputop.Client.Timeline.{Point}
use gputop.Client.Timeline.Message.{
  le, TpStream, Received, add_received, handle_records, handle_perf_data,
}
use gputop.Client.Timeline.Message.Added.{
  IsBytes, IsOrdered, HasFields, IsSafe, time_of, Added, new_point, add_received-Added,
}

-- A record whose size stands in its header.
pub record IsRecord (bytes : Bytes) : Type 0 where
  pub size : le 2 bytes 6 ≡ length bytes
  pub whole : 16 ≤ length bytes

unfoldable pub concat : List Bytes → Bytes
concat [] = []
concat (d ∷ ds) = d ++ concat ds

-- The points of records, with serial numbers from `next` on.
unfoldable pub points_of : TpStream → ℕ → List Bytes → List Point
points_of stream next [] = []
points_of stream next (bytes ∷ ds) =
    record {
      serial = next;
      tp = stream.tp;
      cpu = stream.cpu;
      time = time_of bytes;
      payload = bytes;
    }
    ∷ points_of stream (next + 1) ds

get_or-append : (xs ys : Bytes) (i : ℕ) → i < length xs → get_or (xs ++ ys) i 0 ≡ get_or xs i 0
get_or-append [] ys i h = absurd (omega arith)
get_or-append (x ∷ xs) ys zero h = refl
get_or-append (x ∷ xs) ys (suc i) h = get_or-append xs ys i (omega arith)

le-append :
    (n : ℕ) (xs ys : Bytes) (off : ℕ) → off + n ≤ length xs → le n (xs ++ ys) off ≡ le n xs off
unfolding le
le-append zero xs ys off h = refl
le-append (suc n) xs ys off h =
    ap₂ (λ a b. a + 256 * b) (get_or-append xs ys off (omega arith))
      (le-append n xs ys (off + 1) (omega arith))

take-first : (xs ys : Bytes) → take (length xs) (xs ++ ys) ≡ xs
take-first [] ys = refl
take-first (x ∷ xs) ys = ap (λ t. x ∷ t) (take-first xs ys)

drop-first : (xs ys : Bytes) → drop (length xs) (xs ++ ys) ≡ ys
drop-first [] ys = refl
drop-first (x ∷ xs) ys = drop-first xs ys

read-first : (xs ys : Bytes) → read (xs ++ ys) 0 (length xs) ≡ some xs
read-first xs ys =
    read_lem (xs ++ ys) 0 (length xs) (omega (arith, length-append xs ys))
    ∙ ap some (take-first xs ys)

-- What whole records do to the state of a client: the time line is in order, and what it keeps and
-- what was freed are what they were before and a point for each record.
pub record AllAdded (stream : TpStream) (ds : List Bytes) (r r' : Received) : Type 0 where
  pub order : IsOrdered r'.timeline.points
  pub next : r'.next ≡ r.next + length ds
  pub kept :
      Perm
        (r'.timeline.points ++ r'.freed)
        (points_of stream r.next ds ++ (r.timeline.points ++ r.freed))

AllAdded-cons :
    (lo len : ℕ) (stream : TpStream) (d : Bytes) (ds : List Bytes) (r r1 r' : Received)
    → Added lo len stream ds (new_point lo len stream d ds r) r r1
    → AllAdded stream ds r1 r'
    → AllAdded stream (d ∷ ds) r r'
unfolding points_of
AllAdded-cons lo len stream d ds r r1 r' a all =
    let before = r.timeline.points ++ r.freed in
    let news = points_of stream (r.next + 1) ds in
    let rest : Perm (r'.timeline.points ++ r'.freed) (news ++ (r1.timeline.points ++ r1.freed)) =
      subst
        (λ k.
          Perm (r'.timeline.points ++ r'.freed)
            (points_of stream k ds ++ (r1.timeline.points ++ r1.freed)))
        a.next all.kept in
    record {
      order = all.order;
      next = omega (arith, all.next, a.next);
      kept = Perm.trans rest (Perm.trans (Perm.append_left news a.kept) (perm_middle news before));
    }

module _ (lo len : ℕ) (stream : TpStream) where
  -- A round of the loop over a whole record.
  handle_record :
      (d : Bytes) (ds : List Bytes) (n : ℕ) (r : Received)
      → IsRecord d
      → handle_records (suc n) len stream (d ++ concat ds) r
        ≡ (add_received len stream d r >>= λ r1. handle_records n len stream (concat ds) r1)
  unfolding handle_records
  handle_record d ds n r w =
      let bytes = d ++ concat ds in
      let l = length-append d (concat ds) in
      let size : le 2 bytes 6 ≡ length d =
        le-append 2 d (concat ds) 6 (omega (arith, w.whole)) ∙ w.size in
      let some_bytes : (length bytes == 0) ≡ false = ground (arith, l, w.whole) in
      let header : ltb (length bytes) 8 ≡ false = ground (arith, l, w.whole) in
      let time : ltb (length d) 16 ≡ false = ground (arith, w.whole) in
      rw (some_bytes, header, size, time)
        (ap
            (λ m. m >>= λ entry. add_received len stream entry r >>= λ r1.
              handle_records n len stream (drop (length d) bytes) r1)
            (read-first d (concat ds))
          ∙ ap (λ rest. add_received len stream d r >>= λ r1. handle_records n len stream rest r1)
              (drop-first d (concat ds)))

  handle_records-AllAdded :
      (ds : List Bytes) (n : ℕ) (r : Received)
      → All IsRecord ds
      → All IsBytes ds
      → All (HasFields stream) ds
      → IsOrdered r.timeline.points
      → IsSafe lo len stream ds r.timeline.points
      → length (concat ds) < n
      → Ensures (handle_records n len stream (concat ds) r) (AllAdded stream ds r)
  unfolding handle_records concat points_of
  handle_records-AllAdded ds zero r ws bs fs o safe fuel = absurd (omega arith)
  handle_records-AllAdded [] (suc n) r ws bs fs o safe fuel =
      Ensures-some r (record { order = o; next = omega arith; kept = Perm.rfl })
  handle_records-AllAdded (d ∷ ds) (suc n) r (w, ws) (b, bs) (f, fs) o safe fuel =
      let shorter : length (concat ds) < n =
        omega (arith, length-append d (concat ds), w.whole, fuel) in
      let rest = Ensures-bind (add_received-Added lo len stream d ds r b f o safe) (λ r1 a.
        Ensures-mono (handle_records-AllAdded ds n r1 ws bs fs a.order a.safe shorter)
          (λ r' all. AllAdded-cons lo len stream d ds r r1 r' a all)) in
      Ensures-of rest.result (handle_record d ds n r w ∙ rest.runs) rest.holds

-- A message of whole records for a stream that is known is handled without a read out of bounds.
pub handle_perf_data-AllAdded :
    (S : Table ℕ TpStream) (table : S.T) (lo len id : ℕ) (stream : TpStream) (ds : List Bytes)
    (r : Received)
    → S.search table id ≡ some stream
    → All IsRecord ds
    → All IsBytes ds
    → All (HasFields stream) ds
    → IsOrdered r.timeline.points
    → IsSafe lo len stream ds r.timeline.points
    → Ensures (handle_perf_data S table len id (concat ds) r) (AllAdded stream ds r)
unfolding handle_perf_data
handle_perf_data-AllAdded S table lo len id stream ds r known ws bs fs o safe =
    let all =
      handle_records-AllAdded lo len stream ds (suc (length (concat ds))) r ws bs fs o safe
        (omega arith) in
    Ensures-of all.result
      (ap
          (λ found.
            maybe found (some r)
              (λ stream. handle_records (suc (length (concat ds))) len stream (concat ds) r))
          known
        ∙ all.runs)
      all.holds
