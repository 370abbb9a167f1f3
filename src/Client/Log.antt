-- ===== src/Client/Log.antt =====
-- The message log of a client: `log_add` and `gputop_client_context_clear_logs` of
-- lib/gputop-client-context.c, and the order in which ui/gputop-ui-main.cpp shows the entries.
-- The counters are plain numbers: `start_message` grows by one for each message and would leave
-- the range of `int` after 2^31 of them.
pub mod Order
mod Examples
use gputop.Base.{
  ℕ, ◌+◌, ◌%◌, Bool, List, String, ltb, if◌then◌else◌, get_or, set, replicate, length,
}

-- An element of the `messages` array; the empty text stands for a slot that was never written.
pub record Entry : Type 0 where
  pub level : ℕ
  pub msg : String

-- `messages`, `start_message` and `n_messages` of `struct gputop_client_context`.
pub record Log : Type 0 where
  pub messages : List Entry
  pub start_message : ℕ
  pub n_messages : ℕ

-- `ARRAY_SIZE(ctx->messages)`.
abbrev pub max_messages : ℕ
max_messages = 100

abbrev pub no_entry : Entry
no_entry = record { level = 0; msg = "" }

abbrev pub empty : Log
empty = record { messages = replicate max_messages no_entry; start_message = 0; n_messages = 0 }

-- `log_add`.
unfoldable pub log_add : Log → ℕ → String → Log
log_add ctx level msg =
    let entry : Entry = record { level = level; msg = msg } in
    if ltb ctx.n_messages max_messages
    then record ctx {
      messages = set ctx.messages ctx.n_messages entry;
      n_messages = ctx.n_messages + 1;
    }
    else let start = ctx.start_message + 1 in
      record ctx {
        messages = set ctx.messages ((start + ctx.n_messages) % max_messages) entry;
        start_message = start;
      }

-- `gputop_client_context_clear_logs`.
unfoldable pub clear_logs : Log → Log
clear_logs ctx = record ctx { start_message = 0; n_messages = 0 }

-- The entry that the log window shows in row `i`.
abbrev pub shown : Log → ℕ → Entry
shown ctx i = get_or ctx.messages ((ctx.start_message + i) % max_messages) no_entry
