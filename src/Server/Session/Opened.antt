-- ===== src/Server/Session/Opened.antt =====
-- Requests to open streams keep what holds of them.
use gputop.Base.{
  ℕ, ◌+◌, ◌≡◌, refl, sym, arith, Bool, true, false, Option, none, some, [], ◌∷◌, ◌++◌, not, Ensures,
  Ensures-some, Ensures-if,
}
use mathlib.Core.Path.{subst}
use gputop.Server.Session.{Kind, perf, i915_perf, cpu, Message, Server, has_handle, send_pb_message}
use gputop.Server.Session.Requests.{
  OpenRequest, OpenKind, oa_stream, tracepoint, generic, cpu_stats, gl_query, Opening, refused,
  with_file, new_stream, add_stream, handle_open_perf, handle_open_cpu_stats, handle_open_oa,
  handle_open_stream, perf_initialize, finish_open_oa,
}
use gputop.Server.Session.Counts.{here, count, count-append}
use gputop.Server.Session.Held.{IsOpen, IsLive, IsHeld}
use gputop.Server.Session.Freed.{send_lem}

add_stream-IsHeld :
    (kind : Kind) (fd : Option ℕ) (request : OpenRequest) (server : Server)
    → has_handle kind fd ≡ true
    → IsLive kind request.live_updates
    → IsHeld server
    → IsHeld (add_stream kind fd request server)
unfolding add_stream
add_stream-IsHeld kind fd request server h l v =
    let k = server.next in
    let fresh = v.once k in
    let c : (j : ℕ) → count j (server.streams ++ (k ∷ [])) ≡ count j server.streams + here k j =
      λ j. count-append j k server.streams in
    let o : IsOpen (new_stream kind fd request) = record {
      going = refl;
      living = refl;
      idle = refl;
      referenced = refl;
      unasked = refl;
      handle = h;
      live = l;
    } in
    record {
      once = λ j. ground (arith, v.once j, c j);
      opens = λ j in_list. ground (arith, c j, v.opens j, o);
      closings = λ j in_list. ground (arith, fresh, v.closings j);
      online = v.online;
    }

-- A message that is sent changes nothing of the streams.
send-IsHeld :
    (message : Message) (server : Server) → IsHeld server → IsHeld (send_pb_message message server)
send-IsHeld message server v =
    subst IsHeld (sym (send_lem message server v.online))
      (record { once = v.once; opens = v.opens; closings = v.closings; online = v.online })

initialize-IsHeld : (server : Server) → IsHeld server → IsHeld (perf_initialize server)
initialize-IsHeld server v = record {
  once = v.once;
  opens = v.opens;
  closings = v.closings;
  online = v.online;
}

handle_open_perf-IsHeld :
    (initialized : Bool) (file : Option ℕ) (request : OpenRequest) (server : Server)
    → request.live_updates ≡ true
    → IsHeld server
    → IsHeld (handle_open_perf initialized file request server)
unfolding handle_open_perf
handle_open_perf-IsHeld false file request server l v =
    send-IsHeld _ (perf_initialize server) (initialize-IsHeld server v)
handle_open_perf-IsHeld true none request server l v =
    send-IsHeld _ (perf_initialize server) (initialize-IsHeld server v)
handle_open_perf-IsHeld true (some fd) request server l v =
    send-IsHeld _ (add_stream perf (some fd) request (perf_initialize server)) (
      add_stream-IsHeld perf (some fd) request (perf_initialize server) refl l
        (initialize-IsHeld server v))

handle_open_cpu_stats-IsHeld :
    (initialized : Bool) (request : OpenRequest) (server : Server)
    → IsHeld server
    → IsHeld (handle_open_cpu_stats initialized request server)
unfolding handle_open_cpu_stats
handle_open_cpu_stats-IsHeld false request server v =
    send-IsHeld _ (perf_initialize server) (initialize-IsHeld server v)
handle_open_cpu_stats-IsHeld true request server v =
    send-IsHeld _ (add_stream cpu none request (perf_initialize server)) (
      add_stream-IsHeld cpu none request (perf_initialize server) refl tt
        (initialize-IsHeld server v))

finish_open_oa-IsHeld :
    (opening : Opening) (request : OpenRequest) (server : Server)
    → IsHeld server
    → IsHeld (finish_open_oa opening request server)
finish_open_oa-IsHeld (refused text) request server v = send-IsHeld _ server v
finish_open_oa-IsHeld (with_file fd) request server v =
    send-IsHeld _ (add_stream i915_perf fd request server)
      (add_stream-IsHeld i915_perf fd request server refl tt v)

-- A request for a perf stream asks for live updates.
abbrev pub AsksLive : OpenKind → OpenRequest → Type 0
AsksLive (tracepoint file) request = request.live_updates ≡ true
AsksLive (generic file) request = request.live_updates ≡ true
AsksLive kind request = Unit

-- A request that asks for no context.
pub handle_open_stream-IsHeld :
    (initialized : Bool) (kind : OpenKind) (request : OpenRequest) (server : Server)
    → request.per_ctx_mode ≡ false
    → AsksLive kind request
    → IsHeld server
    → Ensures (handle_open_stream initialized kind request server) IsHeld
unfolding handle_open_stream handle_open_oa
handle_open_stream-IsHeld initialized (oa_stream known opening) request server p l v =
    let v' = initialize-IsHeld server v in
    Ensures-if (not initialized) (λ _. Ensures-some _ (send-IsHeld _ (perf_initialize server) v'))
      (λ _.
        Ensures-if (not known) (λ _. Ensures-some _ (send-IsHeld _ (perf_initialize server) v'))
          (λ _.
            Ensures-if request.per_ctx_mode (λ q. absurd (grind (arith, p, q)))
              (λ _.
                Ensures-some _
                  (finish_open_oa-IsHeld (opening none) request (perf_initialize server) v'))))
handle_open_stream-IsHeld initialized (tracepoint file) request server p l v =
    Ensures-some _ (handle_open_perf-IsHeld initialized file request server l v)
handle_open_stream-IsHeld initialized (generic file) request server p l v =
    Ensures-some _ (handle_open_perf-IsHeld initialized file request server l v)
handle_open_stream-IsHeld initialized cpu_stats request server p l v =
    Ensures-some _ (handle_open_cpu_stats-IsHeld initialized request server v)
handle_open_stream-IsHeld initialized gl_query request server p l v =
    Ensures-some _ (send-IsHeld _ server v)
