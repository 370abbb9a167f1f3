-- ===== src/Server/Session/Settled.antt =====
-- From a request to close a stream to its answer.
use gputop.Base.{
  ℕ, ◌<◌, ◌≡◌, inl, inr, refl, sym, ap, ap₂, ◌∙◌, arith, Bool, true, false, Option, some, List, [],
  ◌∷◌, ◌++◌, ◌==◌, if◌then◌else◌, maybe, ◌>>=◌, Ensures, Ensures-of, Ensures-mono, Ensures-bind,
  Ensures-if, Bool-cases, String, ==_iff,
}
use gputop.Server.Session.{
  Stream, stream_closed_notify, ack, close_notify, Server, write, has_handle, perf_stream_close,
  stream_handle_closed_cb, flush_finished,
}
use gputop.Server.Session.Requests.{stream_with_id}
use gputop.Server.Session.Counts.{count}
use gputop.Server.Session.Held.{IsClosing, IsHeld}
use gputop.Server.Session.Closes.{perf_stream_close_lem, write_self, by_handle}
use gputop.Server.Session.Freed.{Gone-IsHeld, handle_closed-Gone, write_closing}

twice :
    (b : Bool) (s1 s2 s : Stream)
    → (if b then s2 else (if b then s1 else s)) ≡ (if b then s2 else s)
twice true s1 s2 s = refl
twice false s1 s2 s = refl

write_twice :
    (k : ℕ) (s1 s2 : Stream) (server : Server) → write k s2 (write k s1 server) ≡ write k s2 server
write_twice k s1 s2 server =
    λ i. record server { heap = λ j. twice (j == k) s1 s2 (server.heap j) i }

-- The message of a stream that is being closed has ended: its handle is closed next.
abbrev pub Released : ℕ → Server → Server → Type 0
Released k server server' =
    IsHeld server'
    × (server'.closing_streams ≡ server.closing_streams)
    × (server'.sent ≡ server.sent)
    × ((server'.heap k).flushing ≡ false)
    × ((server'.heap k).id ≡ (server.heap k).id)
    × ((server'.heap k).user_data ≡ (server.heap k).user_data)

pub flush_finished-Released :
    (k : ℕ) (server : Server)
    → IsHeld server
    → 0 < count k server.closing_streams
    → (server.heap k).flushing ≡ true
    → Ensures (flush_finished k server) (Released k server)
unfolding flush_finished
flush_finished-Released k server v h f =
    let c = v.closings k h in
    let s1 = record (server.heap k) { flushing = false } in
    let server1 = write k s1 server in
    let self1 = write_self k s1 server in
    let idle : (server.heap k).n_closing_uv_handles ≡ 0 = elim c.waiting [
      | inl w ↦ w.1
      | inr w ↦ absurd (grind (arith, w.0, f))
    ] in
    let server2 = write k (by_handle (server1.heap k)) server1 in
    let e : server2 ≡ write k (by_handle s1) server =
      ap (λ s. write k (by_handle s) server1) self1 ∙ write_twice k s1 (by_handle s1) server in
    let self2 = write_self k (by_handle s1) server in
    let closing : IsClosing (by_handle s1) = record {
      pending = c.pending;
      living = c.living;
      referenced = c.referenced;
      uuid = c.uuid;
      asked = c.asked;
      handle = c.handle;
      waiting = inr (refl, refl, refl);
    } in
    Ensures-of (write k (by_handle s1) server)
      (ap (λ b. if b then perf_stream_close stream_closed_notify k server1 else some server1)
          c.pending
        ∙ perf_stream_close_lem stream_closed_notify k server1
            (ap (λ s. has_handle s.kind s.fd) self1 ∙ c.handle)
            (ap (λ s. s.n_closing_uv_handles) self1 ∙ idle)
        ∙ ap some e)
      (
        write_closing k (by_handle s1) server v h closing,
        refl,
        refl,
        ap (λ s. s.flushing) self2,
        ap (λ s. s.id) self2,
        ap (λ s. s.user_data) self2,
      )

-- The events that end a stream that is being closed: the end of its message, if it has one on the
-- way, and the closing of its handle.
abbrev pub settle : ℕ → Server → Option Server
settle k server =
    if (server.heap k).flushing
    then flush_finished k server >>= stream_handle_closed_cb k
    else stream_handle_closed_cb k server

-- A stream that was freed and whose closing was answered.
abbrev pub Answered : ℕ → String → ℕ → Server → Server → Type 0
Answered k uuid id server server' =
    IsHeld server'
    × (server'.sent ≡ server.sent ++ (ack uuid ∷ close_notify id ∷ []))
    × (count k server'.freed ≡ 1)

by_handle-Answered :
    (k : ℕ) (uuid : String) (server : Server)
    → IsHeld server
    → 0 < count k server.closing_streams
    → (server.heap k).flushing ≡ false
    → (server.heap k).user_data ≡ some uuid
    → Ensures (stream_handle_closed_cb k server) (Answered k uuid (server.heap k).id server)
by_handle-Answered k uuid server v h f asked =
    let c = v.closings k h in
    let w : ((server.heap k).n_closing_uv_handles ≡ 1)
        × ((server.heap k).on_close ≡ some stream_closed_notify) =
      elim c.waiting [ inl w ↦ absurd (grind (arith, w.0, f)) | inr w ↦ (w.1, w.2) ] in
    let same : c.uuid ≡ uuid = ap (λ o. maybe o uuid (λ u. u)) (sym c.asked ∙ asked) in
    Ensures-mono (handle_closed-Gone k server c v.online w.0 w.1) (λ server' g.
      let kept = Gone-IsHeld k _ server server' v h g in
      (
        kept,
        g.sent ∙ ap (λ u. server.sent ++ (ack u ∷ close_notify (server.heap k).id ∷ [])) same,
        ground (arith, ap (count k) g.freed, kept.once k),
      ))

-- Every stream that is being closed is freed by its next events, which answer the request.
pub settle-Answered :
    (k : ℕ) (uuid : String) (server : Server)
    → IsHeld server
    → 0 < count k server.closing_streams
    → (server.heap k).user_data ≡ some uuid
    → Ensures (settle k server) (Answered k uuid (server.heap k).id server)
settle-Answered k uuid server v h asked =
    Ensures-if (server.heap k).flushing
      (λ f. Ensures-bind (flush_finished-Released k server v h f) (λ server1 r.
        Ensures-mono (by_handle-Answered k uuid server1 r.0 (rw r.1 h) r.3 (r.5 ∙ asked))
          (λ server2 a.
            (a.0, a.1 ∙ ap₂ (λ sent id. sent ++ (ack uuid ∷ close_notify id ∷ [])) r.2 r.4, a.2))))
      (λ f. by_handle-Answered k uuid server v h f asked)

pub found_in :
    (heap : ℕ → Stream) (id k : ℕ) (ks : List ℕ)
    → stream_with_id heap id ks ≡ some k
    → (0 < count k ks) × ((heap k).id ≡ id)
unfolding stream_with_id
found_in heap id k [] e = absurd cc
found_in heap id k (j ∷ ks) e = elim (Bool-cases ((heap j).id == id)) [
  | inl same ↦
      let e' : some j ≡ some k =
        sym (ap (λ b. if b then some j else stream_with_id heap id ks) same) ∙ e in
      let jk : j ≡ k = ap (λ o. maybe o j (λ i. i)) e' in
      (ground (arith, jk), ap (λ i. (heap i).id) (sym jk) ∙ (==_iff (heap j).id id).0 same)
  | inr other ↦
      let later =
        found_in heap id k ks
          (sym (ap (λ b. if b then some j else stream_with_id heap id ks) other) ∙ e) in
      (omega (arith, later.0), later.1)
]
