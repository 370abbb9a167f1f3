-- ===== src/Server/Session/Freed.antt =====
-- How a stream that is being closed is given up: its message ends, its handle is closed, the request
-- is acknowledged and the stream freed.
use gputop.Base.{
  ℕ, ◌+◌, ◌-◌, ◌<◌, ◌≡◌, inl, inr, refl, sym, ap, ◌∙◌, arith, true, false, none, some, List, [],
  ◌∷◌, ◌++◌, ◌==◌, if◌then◌else◌, maybe, Ensures, Ensures-of, Bool-cases, String,
}
use mathlib.Core.Path.{subst}
use gputop.Server.Session.{
  Stream, stream_closed_notify, Message, ack, close_notify, Server, write, remove,
  stream_handle_closed_cb, finish_stream_close, stream_unref, stream_closed_cb, call_on_close,
  ack_close, stream_closed_notify_cb, send_pb_message, closed_fd, list_del,
}
use gputop.Server.Session.Counts.{here, count, count-remove, count-remove_none}
use gputop.Server.Session.Held.{IsOpen, IsClosing, IsHeld}
use gputop.Server.Session.Closes.{write_self, write_other}

-- A stream that was freed, with the messages that were sent for it.
pub record Gone (k : ℕ) (messages : List Message) (server server' : Server) : Type 0 where
  pub from : server'.streams ≡ remove k server.streams
  pub to : server'.closing_streams ≡ remove k server.closing_streams
  pub freed : server'.freed ≡ k ∷ server.freed
  pub next : server'.next ≡ server.next
  pub connected : server'.connected ≡ server.connected
  pub sent : server'.sent ≡ server.sent ++ messages
  pub others : (j : ℕ) → (j == k) ≡ false → server'.heap j ≡ server.heap j

append_two : (xs : List Message) (a b : Message) → (xs ++ (a ∷ [])) ++ (b ∷ []) ≡ xs ++ (a ∷ b ∷ [])
append_two [] a b = refl
append_two (x ∷ xs) a b = ap (λ l. x ∷ l) (append_two xs a b)

unref_lem :
    (k : ℕ) (server : Server)
    → (server.heap k).ref_count ≡ 1
    → (server.heap k).closed ≡ true
    → stream_unref k server
      ≡ some (record (write k (record (server.heap k) { ref_count = 0 }) server) {
        freed = k ∷ server.freed;
      })
unfolding stream_unref
unref_lem k server r c = rw (r, c) refl

-- The stream whose request was acknowledged.
abbrev answered : Stream → Stream
answered s = record s { user_data = none }

pub send_lem :
    (message : Message) (server : Server)
    → server.connected ≡ true
    → send_pb_message message server ≡ record server { sent = server.sent ++ (message ∷ []) }
unfolding send_pb_message
send_lem message server online = rw online refl

ack_lem :
    (k : ℕ) (uuid : String) (server : Server)
    → server.connected ≡ true
    → (server.heap k).user_data ≡ some uuid
    → ack_close k server
      ≡ write k (answered (server.heap k)) (record server { sent = server.sent ++ (ack uuid ∷ []) })
ack_lem k uuid server online asked =
    ap
      (λ d.
        maybe d server (λ u. write k (answered (server.heap k)) (send_pb_message (ack u) server)))
      asked
    ∙ ap (write k (answered (server.heap k))) (send_lem (ack uuid) server online)

notify_lem :
    (k : ℕ) (uuid : String) (server : Server)
    → server.connected ≡ true
    → (server.heap k).ref_count ≡ 1
    → (server.heap k).closed ≡ true
    → (server.heap k).user_data ≡ some uuid
    → Ensures
        (stream_closed_notify_cb k server)
        (Gone k (ack uuid ∷ close_notify (server.heap k).id ∷ []) server)
unfolding stream_closed_notify_cb
notify_lem k uuid server online r c asked =
    let message = close_notify (server.heap k).id in
    let s1 = answered (server.heap k) in
    let server1 = write k s1 (record server { sent = server.sent ++ (ack uuid ∷ []) }) in
    let server2 = list_del k (record server1 { sent = server1.sent ++ (message ∷ []) }) in
    let self = write_self k s1 server in
    Ensures-of
      (record (write k (record (server2.heap k) { ref_count = 0 }) server2) {
        freed = k ∷ server2.freed;
      })
      (ap (λ t. stream_closed_cb k (send_pb_message message t)) (ack_lem k uuid server online asked)
        ∙ ap (stream_closed_cb k) (send_lem message server1 online)
        ∙ unref_lem k server2 (ap (λ s. s.ref_count) self ∙ r) (ap (λ s. s.closed) self ∙ c))
      (record {
        from = refl;
        to = refl;
        freed = refl;
        next = refl;
        connected = refl;
        sent = append_two server.sent (ack uuid) message;
        others = λ j e. write_other k j _ server2 e ∙ write_other k j s1 server e;
      })

-- The closing of the handle of a stream that is being closed.
pub handle_closed-Gone :
    (k : ℕ) (server : Server) (c : IsClosing (server.heap k))
    → server.connected ≡ true
    → (server.heap k).n_closing_uv_handles ≡ 1
    → (server.heap k).on_close ≡ some stream_closed_notify
    → Ensures
        (stream_handle_closed_cb k server)
        (Gone k (ack c.uuid ∷ close_notify (server.heap k).id ∷ []) server)
unfolding stream_handle_closed_cb finish_stream_close
handle_closed-Gone k server c online one callback =
    let s = server.heap k in
    let s1 = record s { n_closing_uv_handles = s.n_closing_uv_handles - 1 } in
    let server1 = write k s1 server in
    let self1 = write_self k s1 server in
    let s2 = record (server1.heap k) {
      fd = closed_fd (server1.heap k).kind (server1.heap k).fd;
      closed = true;
    } in
    let server2 = write k s2 server1 in
    let self2 = write_self k s2 server1 in
    let n =
      notify_lem k c.uuid server2 online
        (ap (λ s. s.ref_count) self2 ∙ ap (λ s. s.ref_count) self1 ∙ c.referenced)
        (ap (λ s. s.closed) self2)
        (ap (λ s. s.user_data) self2 ∙ ap (λ s. s.user_data) self1 ∙ c.asked) in
    let g = n.holds in
    Ensures-of n.result
      (ap (λ b. if b then finish_stream_close k server1 else some server1) (ap (λ n. n == 1) one)
        ∙ ap (λ f. call_on_close f k server2) (ap (λ s. s.on_close) self1 ∙ callback)
        ∙ n.runs)
      (record {
        from = g.from;
        to = g.to;
        freed = g.freed;
        next = g.next;
        connected = g.connected;
        sent =
            g.sent
            ∙ ap (λ id. server.sent ++ (ack c.uuid ∷ close_notify id ∷ []))
                (ap (λ s. s.id) self2 ∙ ap (λ s. s.id) self1);
        others = λ j e. g.others j e ∙ write_other k j s2 server1 e ∙ write_other k j s1 server e;
      })

pub Gone-IsHeld :
    (k : ℕ) (messages : List Message) (server server' : Server)
    → IsHeld server
    → 0 < count k server.closing_streams
    → Gone k messages server server'
    → IsHeld server'
Gone-IsHeld k messages server server' v h g =
    let absent : count k server.streams ≡ 0 = ground (arith, v.once k) in
    let from : server'.streams ≡ server.streams =
      g.from ∙ count-remove_none k server.streams absent in
    let less : (j : ℕ)
        → here k j + count j server'.closing_streams ≡ count j server.closing_streams =
      λ j. ap (λ l. here k j + count j l) g.to ∙ count-remove j k server.closing_streams h in
    record {
      once = λ j. rw (g.freed, g.next, from) (omega (arith, v.once j, less j));
      opens = λ j l. elim (Bool-cases (j == k)) [
        | inl e ↦ absurd (ground (arith, e, ap (count j) from, less j, v.once j, l))
        | inr e ↦
            subst IsOpen (sym (g.others j e)) (v.opens j (omega (arith, ap (count j) from, l)))
      ];
      closings = λ j l. elim (Bool-cases (j == k)) [
        | inl e ↦ absurd (ground (arith, e, less j, v.once j, l))
        | inr e ↦ subst IsClosing (sym (g.others j e)) (v.closings j (omega (arith, less j, l)))
      ];
      online = g.connected ∙ v.online;
    }

-- A change of a stream that is being closed.
pub write_closing :
    (k : ℕ) (s : Stream) (server : Server)
    → IsHeld server
    → 0 < count k server.closing_streams
    → IsClosing s
    → IsHeld (write k s server)
write_closing k s server v h c = record {
  once = v.once;
  opens = λ j l. ground (arith, v.opens j, v.once j);
  closings = λ j l. ground (arith, v.closings j, c);
  online = v.online;
}
