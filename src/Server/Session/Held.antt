-- ===== src/Server/Session/Held.antt =====
-- What holds of the streams of the server between two events.
use mathlib.Core.Path.{subst}
use gputop.Base.{
  false, ℕ, ◌+◌, ◌≤◌, ◌<◌, ◌≡◌, ◌⊎◌, refl, ◌∙◌, arith, Bool, true, false, none, some, List, [], ◌∷◌,
  ltb, if◌then◌else◌, Ensures, Ensures-some, Ensures-mono, Ensures-bind, Ensures-if, String,
}
use gputop.Server.Session.{
  Kind, perf, i915_perf, cpu, Stream, stream_closed_notify, Server, write, has_handle, start_flush,
  flush_stream_samples, update_kind, update_streams,
}
use gputop.Server.Session.Counts.{count}

-- A perf stream is flushed; of the others it does not matter.
abbrev pub IsLive : Kind → Bool → Type 0
IsLive perf live = live ≡ true
IsLive kind live = Unit

-- A stream that can be flushed.
pub record IsOpen (s : Stream) : Type 0 where
  pub going : s.pending_close ≡ false
  pub living : s.closed ≡ false
  pub idle : s.n_closing_uv_handles ≡ 0
  pub referenced : s.ref_count ≡ 1
  pub unasked : s.user_data ≡ none
  pub handle : has_handle s.kind s.fd ≡ true
  pub live : IsLive s.kind s.live_updates

-- A stream waits for the end of its message, or for its handle.
abbrev pub Waiting : Stream → Type 0
Waiting s =
    ((s.flushing ≡ true) × (s.n_closing_uv_handles ≡ 0))
    ⊎ ((s.flushing ≡ false)
        × (s.n_closing_uv_handles ≡ 1)
        × (s.on_close ≡ some stream_closed_notify))

-- A stream that a request closes, and that is not closed yet.
pub record IsClosing (s : Stream) : Type 0 where
  pub pending : s.pending_close ≡ true
  pub living : s.closed ≡ false
  pub referenced : s.ref_count ≡ 1
  pub uuid : String
  pub asked : s.user_data ≡ some uuid
  pub handle : has_handle s.kind s.fd ≡ true
  pub waiting : Waiting s

-- Every stream that was opened is in one place: held open, being closed, or freed.
pub record IsHeld (server : Server) : Type 0 where
  pub once :
      (j : ℕ)
      → count j server.streams + count j server.closing_streams + count j server.freed
        ≡ (if ltb j server.next then 1 else 0)
  pub opens : (j : ℕ) → 0 < count j server.streams → IsOpen (server.heap j)
  pub closings : (j : ℕ) → 0 < count j server.closing_streams → IsClosing (server.heap j)
  pub online : server.connected ≡ true

-- A change of an open stream that leaves it open.
pub write_open :
    (k : ℕ) (s : Stream) (server : Server)
    → IsHeld server
    → 0 < count k server.streams
    → IsOpen s
    → IsHeld (write k s server)
write_open k s server v h o = record {
  once = v.once;
  opens = λ j l. ground (arith, v.opens j, o);
  closings = λ j l. ground (arith, v.closings j, v.once j);
  online = v.online;
}

pub flushing-IsHeld :
    (b : Bool) (k : ℕ) (server : Server)
    → IsHeld server
    → 0 < count k server.streams
    → IsHeld (write k (record (server.heap k) { flushing = b }) server)
flushing-IsHeld b k server v h =
    let o = v.opens k h in
    write_open k _ server v h (record {
      going = o.going;
      living = o.living;
      idle = o.idle;
      referenced = o.referenced;
      unasked = o.unasked;
      handle = o.handle;
      live = o.live;
    })

-- What is kept by a flush.
abbrev pub Flushed : Server → Server → Type 0
Flushed server server' =
    IsHeld server' × (server'.streams ≡ server.streams) × (server'.sent ≡ server.sent)

start_flush-Flushed :
    (kind : Kind) (k : ℕ) (server : Server)
    → IsHeld server
    → 0 < count k server.streams
    → Ensures (start_flush k server kind) (Flushed server)
start_flush-Flushed cpu k server v h = Ensures-some server (v, refl, refl)
start_flush-Flushed perf k server v h =
    Ensures-if server.connected
      (λ _. Ensures-some _ (flushing-IsHeld true k server v h, refl, refl))
      (λ off. absurd (grind (arith, v.online, off)))
start_flush-Flushed i915_perf k server v h =
    Ensures-if server.connected
      (λ _. Ensures-some _ (flushing-IsHeld true k server v h, refl, refl))
      (λ off. absurd (grind (arith, v.online, off)))

flush_stream_samples-Flushed :
    (pending : Bool) (k : ℕ) (server : Server)
    → IsHeld server
    → 0 < count k server.streams
    → Ensures (flush_stream_samples pending k server) (Flushed server)
unfolding flush_stream_samples
flush_stream_samples-Flushed pending k server v h =
    let o = v.opens k h in
    Ensures-if (server.heap k).flushing (λ _. Ensures-some server (v, refl, refl))
      (λ _.
        rw (o.going, o.living)
          (Ensures-if pending (λ _. start_flush-Flushed (server.heap k).kind k server v h)
            (λ _. Ensures-some server (v, refl, refl))))

-- A stream that is not flushed is no perf stream, and left alone.
unflushed :
    (size_at : ℕ → ℕ) (kind : Kind) (k : ℕ) (server : Server)
    → IsHeld server
    → IsLive kind false
    → Ensures (update_kind size_at k server kind) (Flushed server)
unflushed size_at perf k server v live = absurd cc
unflushed size_at i915_perf k server v live = Ensures-some server (v, refl, refl)
unflushed size_at cpu k server v live = Ensures-some server (v, refl, refl)

update_streams-Flushed :
    (pending : ℕ → Bool) (size_at : ℕ → ℕ → ℕ) (ks : List ℕ) (server : Server)
    → IsHeld server
    → ((j : ℕ) → count j ks ≤ count j server.streams)
    → Ensures (update_streams pending size_at ks server) (Flushed server)
unfolding update_streams
update_streams-Flushed pending size_at [] server v h = Ensures-some server (v, refl, refl)
update_streams-Flushed pending size_at (k ∷ ks) server v h =
    let held : 0 < count k server.streams = ground (arith, h k) in
    Ensures-bind
      (Ensures-if (server.heap k).live_updates
        (λ _. flush_stream_samples-Flushed (pending k) k server v held)
        (λ off.
          unflushed (size_at k) (server.heap k).kind k server v
            (subst (IsLive (server.heap k).kind) off (v.opens k held).live)))
      (λ server' f.
        Ensures-mono
          (update_streams-Flushed pending size_at ks server' f.0 (λ j. rw f.1 (omega (arith, h j))))
          (λ server'' g. (g.0, g.1 ∙ f.1, g.2 ∙ f.2)))

-- `update_cb` never meets a stream that is being closed, and sends no answer.
pub update_streams-IsHeld :
    (pending : ℕ → Bool) (size_at : ℕ → ℕ → ℕ) (server : Server)
    → IsHeld server
    → Ensures (update_streams pending size_at server.streams server) (Flushed server)
update_streams-IsHeld pending size_at server v =
    update_streams-Flushed pending size_at server.streams server v (λ j. omega arith)
