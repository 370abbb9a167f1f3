-- ===== src/Server/Session/Closes.antt =====
-- How a stream is closed on request: at once or after its message, and then by its handle.
use gputop.Base.{
  ℕ, ◌+◌, ◌<◌, ◌≡◌, inl, inr, refl, sym, ap, ◌∙◌, arith, Bool, true, false, none, some, [], ◌∷◌,
  ◌++◌, ◌==◌, if◌then◌else◌, maybe, Ensures, Ensures-some, Ensures-of, Ensures-if, Bool-cases,
  String, ==_iff,
}
use mathlib.Core.Path.{subst}
use gputop.Server.Session.{
  Stream, OnClose, stream_closed_notify, Server, write, remove, has_handle, perf_stream_close,
  close_stream,
}
use gputop.Server.Session.Requests.{close_found}
use gputop.Server.Session.Counts.{here, count, count-append, count-remove, count-remove_none}
use gputop.Server.Session.Held.{IsOpen, IsClosing, IsHeld}

-- Closing a stream that has its handle.
pub perf_stream_close_lem :
    (callback : OnClose) (k : ℕ) (server : Server)
    → has_handle (server.heap k).kind (server.heap k).fd ≡ true
    → (server.heap k).n_closing_uv_handles ≡ 0
    → perf_stream_close callback k server
      ≡ some (
          write k
            (record (server.heap k) { on_close = some callback; n_closing_uv_handles = 1 })
            server)
unfolding perf_stream_close
perf_stream_close_lem callback k server h z = rw h (rw z refl)

-- A stream whose handle is being closed.
abbrev pub by_handle : Stream → Stream
by_handle s = record s { on_close = some stream_closed_notify; n_closing_uv_handles = 1 }

-- A stream that was asked to close.
abbrev asked_by : Stream → Bool → Stream
asked_by s flushing = if flushing then record s { pending_close = true } else record s {
  pending_close = true;
  on_close = some stream_closed_notify;
  n_closing_uv_handles = 1;
}

abbrev asked_to_close : Stream → Stream
asked_to_close s = asked_by s s.flushing

-- A stream that a request moves to the streams that are being closed.
record Moved (k : ℕ) (s : Stream) (server server' : Server) : Type 0 where
  from : server'.streams ≡ remove k server.streams
  to : server'.closing_streams ≡ remove k server.closing_streams ++ (k ∷ [])
  freed : server'.freed ≡ server.freed
  next : server'.next ≡ server.next
  connected : server'.connected ≡ server.connected
  sent : server'.sent ≡ server.sent
  self : server'.heap k ≡ asked_to_close s
  others : (j : ℕ) → (j == k) ≡ false → server'.heap j ≡ server.heap j

here_self : (k : ℕ) → here k k ≡ 1
here_self k = ground arith

pub eq_self : (k : ℕ) → (k == k) ≡ true
eq_self k = ground arith

pub write_self : (k : ℕ) (s : Stream) (server : Server) → (write k s server).heap k ≡ s
write_self k s server = ap (λ b. if b then s else server.heap k) (eq_self k)

pub write_other :
    (k j : ℕ) (s : Stream) (server : Server)
    → (j == k) ≡ false
    → (write k s server).heap j ≡ server.heap j
write_other k j s server e = ap (λ b. if b then s else server.heap j) e

close_stream-Moved :
    (k : ℕ) (server : Server)
    → has_handle (server.heap k).kind (server.heap k).fd ≡ true
    → (server.heap k).n_closing_uv_handles ≡ 0
    → Ensures (close_stream k server) (Moved k (server.heap k) server)
unfolding close_stream
close_stream-Moved k server h z =
    let s1 = record (server.heap k) { pending_close = true } in
    let server1 = write k s1 (record server {
      streams = remove k server.streams;
      closing_streams = remove k server.closing_streams ++ (k ∷ []);
    }) in
    let self = write_self k s1 server in
    Ensures-if (server.heap k).flushing
      (λ f. Ensures-some server1 (record {
        from = refl;
        to = refl;
        freed = refl;
        next = refl;
        connected = refl;
        sent = refl;
        self = self ∙ sym (ap (asked_by (server.heap k)) f);
        others = λ j e. write_other k j s1 server e;
      }))
      (λ f.
        Ensures-of
          (write k
            (record (server1.heap k) {
              on_close = some stream_closed_notify;
              n_closing_uv_handles = 1;
            })
            server1)
          (perf_stream_close_lem stream_closed_notify k server1
            (ap (λ s. has_handle s.kind s.fd) self ∙ h) (ap (λ s. s.n_closing_uv_handles) self ∙ z))
          (record {
            from = refl;
            to = refl;
            freed = refl;
            next = refl;
            connected = refl;
            sent = refl;
            self =
                write_self k _ server1 ∙ ap by_handle self ∙ sym (ap (asked_by (server.heap k)) f);
            others = λ j e. write_other k j _ server1 e ∙ write_other k j s1 server e;
          }))

Moved-IsHeld :
    (k : ℕ) (s : Stream) (server server' : Server)
    → IsHeld server
    → 0 < count k server.streams
    → Moved k s server server'
    → IsClosing (asked_to_close s)
    → IsHeld server'
Moved-IsHeld k s server server' v h m closing =
    let absent : count k server.closing_streams ≡ 0 = ground (arith, v.once k) in
    let same = count-remove_none k server.closing_streams absent in
    let to : server'.closing_streams ≡ server.closing_streams ++ (k ∷ []) =
      m.to ∙ ap (λ l. l ++ (k ∷ [])) same in
    let less : (j : ℕ) → here k j + count j server'.streams ≡ count j server.streams =
      λ j. ap (λ l. here k j + count j l) m.from ∙ count-remove j k server.streams h in
    let more : (j : ℕ)
        → count j server'.closing_streams ≡ count j server.closing_streams + here k j =
      λ j. ap (count j) to ∙ count-append j k server.closing_streams in
    record {
      once = λ j. rw (m.freed, m.next) (omega (arith, v.once j, less j, more j));
      opens = λ j l. elim (Bool-cases (j == k)) [
        | inl e ↦ absurd (ground (arith, e, less j, v.once j, l))
        | inr e ↦ subst IsOpen (sym (m.others j e)) (v.opens j (omega (arith, less j, l)))
      ];
      closings = λ j l. elim (Bool-cases (j == k)) [
        | inl e ↦
            subst (λ i. IsClosing (server'.heap i)) (sym ((==_iff j k).0 e))
              (subst IsClosing (sym m.self) closing)
        | inr e ↦ subst IsClosing (sym (m.others j e)) (v.closings j (ground (arith, e, more j, l)))
      ];
      online = m.connected ∙ v.online;
    }

asked_by-IsClosing :
    (uuid : String) (s : Stream) (b : Bool)
    → IsOpen s
    → s.flushing ≡ b
    → let s' = asked_by (record s { user_data = some uuid }) b in
      IsClosing s' × (s'.user_data ≡ some uuid) × (s'.id ≡ s.id)
asked_by-IsClosing uuid s true o f = (
  record {
    pending = refl;
    living = o.living;
    referenced = o.referenced;
    uuid = uuid;
    asked = refl;
    handle = o.handle;
    waiting = inl (f, o.idle);
  },
  refl,
  refl,
)
asked_by-IsClosing uuid s false o f = (
  record {
    pending = refl;
    living = o.living;
    referenced = o.referenced;
    uuid = uuid;
    asked = refl;
    handle = o.handle;
    waiting = inr (f, refl, refl);
  },
  refl,
  refl,
)

-- What a request to close an open stream does.
abbrev pub Asked : String → ℕ → Server → Server → Type 0
Asked uuid k server server' =
    IsHeld server'
    × (0 < count k server'.closing_streams)
    × (server'.sent ≡ server.sent)
    × ((server'.heap k).user_data ≡ some uuid)
    × ((server'.heap k).id ≡ (server.heap k).id)

pub close_found-Asked :
    (uuid : String) (k : ℕ) (server : Server)
    → IsHeld server
    → 0 < count k server.streams
    → Ensures (close_found uuid k server) (Asked uuid k server)
unfolding close_stream
close_found-Asked uuid k server v h =
    let o = v.opens k h in
    let s = record (server.heap k) { user_data = some uuid } in
    let server1 = write k s server in
    let self = write_self k s server in
    let c =
      close_stream-Moved k server1 (ap (λ s. has_handle s.kind s.fd) self ∙ o.handle)
        (ap (λ s. s.n_closing_uv_handles) self ∙ o.idle) in
    let m = c.holds in
    let moved : Moved k s server c.result = record {
      from = m.from;
      to = m.to;
      freed = m.freed;
      next = m.next;
      connected = m.connected;
      sent = m.sent;
      self = m.self ∙ ap asked_to_close self;
      others = λ j e. m.others j e ∙ write_other k j s server e;
    } in
    let closing = asked_by-IsClosing uuid (server.heap k) (server.heap k).flushing o refl in
    Ensures-of c.result (ap (λ d. maybe d (close_stream k server1) (λ _. none)) o.unasked ∙ c.runs)
      (
        Moved-IsHeld k s server c.result v h moved closing.0,
        rw moved.to
            (omega (arith, count-append k k (remove k server.closing_streams), here_self k)),
        m.sent,
        ap (λ s. s.user_data) moved.self ∙ closing.1,
        ap (λ s. s.id) moved.self ∙ closing.2,
      )
