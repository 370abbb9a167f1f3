-- ===== src/Server/Journal/Examples.antt =====
-- The theorem on the server's log at a concrete input.
use gputop.Base.{◌≡◌, none, some, [], ◌∷◌, ◌++◌, take, map}
use gputop.Server.Journal.{empty, get_pb_log}
use gputop.Server.Journal.Kept.{Call, entry_of, log_all, get_pb_log-log_all}

abbrev started : Call
started = record { level = 1; message = b'h' ∷ b'i' ∷ []; len = none }

abbrev stopped : Call
stopped = record { level = 2; message = b'b' ∷ b'y' ∷ b'e' ∷ []; len = some 2 }

get_pb_log-log_all_example :
    get_pb_log (log_all empty ((started ∷ started ∷ []) ++ (stopped ∷ [])))
    ≡ (some (take 10000 (map entry_of (started ∷ started ∷ [])) ++ (entry_of stopped ∷ [])), empty)
get_pb_log-log_all_example = get_pb_log-log_all (started ∷ started ∷ []) stopped
