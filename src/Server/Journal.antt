-- ===== src/Server/Journal.antt =====
-- The log of the server, server/gputop-log.c. A write lock orders the calls, which are steps here;
-- `pthread_once` makes the list empty before the first. A message is the list of its bytes.
pub mod Kept
mod Examples
use gputop.Base.{
  ℕ, ◌+◌, ◌-◌, Bool, Option, none, some, List, [], ◌∷◌, ◌++◌, Bytes, ltb, ◌==◌, take, if◌then◌else◌,
}

-- `struct gputop_log_entry`.
pub record LogEntry : Type 0 where
  pub level : ℕ
  pub msg : Bytes

-- `gputop_log_entries`, from head to tail, and `gputop_log_len`.
pub record Journal : Type 0 where
  pub entries : List LogEntry
  pub log_len : ℕ

abbrev pub empty : Journal
empty = record { entries = []; log_len = 0 }

-- The list without its last entry, which `list_last_entry` finds and `list_del` takes out.
abbrev pub without_last : List LogEntry → List LogEntry
without_last [] = []
without_last (e ∷ []) = []
without_last (e ∷ f ∷ es) = e ∷ without_last (f ∷ es)

-- `strndup(message, len)`, with the whole message for a negative `len`.
abbrev pub copied : Bytes → Option ℕ → Bytes
copied message none = message
copied message (some len) = take len message

-- The body of `gputop_log`, with the length above which an entry is taken out.
unfoldable pub add : ℕ → Journal → LogEntry → Journal
add limit j entry =
    if ltb limit j.log_len
    then record { entries = without_last j.entries ++ (entry ∷ []); log_len = j.log_len - 1 + 1 }
    else record { entries = j.entries ++ (entry ∷ []); log_len = j.log_len + 1 }

-- `gputop_log`; a negative `len` is `none`.
unfoldable pub log : Journal → ℕ → Bytes → Option ℕ → Journal
log j level message len = add 10000 j (record { level = level; msg = copied message len })

-- `gputop_get_pb_log`: the entries of the message, `none` for NULL, and the log it leaves.
unfoldable pub get_pb_log : Journal → Option (List LogEntry) × Journal
get_pb_log j = if j.log_len == 0 then (none, j) else (some j.entries, empty)
