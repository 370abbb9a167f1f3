-- ===== src/Client/Log/Order.antt =====
-- What the log shows after a message is added.
use gputop.Base.{
  ℕ, ◌+◌, ◌%◌, ◌≤◌, ◌<◌, ◌≡◌, List, String, arith, refl, get_or, set, length, length-set,
  get_or-set_self, get_or-set_ne, lt→ltb, le→ltb, ap, ◌∙◌,
}
use gputop.Client.Log.{Entry, Log, log_add, clear_logs, shown, max_messages, no_entry}

-- The array has its full size, and the start moves only once the log is full.
pub record IsValid (ctx : Log) : Type 0 where
  pub slots : length ctx.messages ≡ max_messages
  pub count : ctx.n_messages ≤ max_messages
  pub start : ctx.n_messages < max_messages → ctx.start_message ≡ 0

abbrev pub entry : ℕ → String → Entry
entry level msg = record { level = level; msg = msg }

-- `log_add` and `gputop_client_context_clear_logs` keep the array at its full size, the number of
-- messages at most that size, and the start at 0 until the log is full.
pub log_add-IsValid :
    (ctx : Log) (level : ℕ) (msg : String)
    → IsValid ctx
    → IsValid (log_add ctx level msg) × IsValid (clear_logs ctx)
unfolding log_add clear_logs
log_add-IsValid ctx level msg v = ground (
  arith,
  length-set ctx.messages ctx.n_messages (entry level msg),
  length-set ctx.messages ((ctx.start_message + 1 + ctx.n_messages) % max_messages)
      (entry level msg),
  v.start,
)

-- While there is room, a message is shown behind all that were shown before.
pub log_add_room :
    (ctx : Log) (level : ℕ) (msg : String)
    → IsValid ctx
    → ctx.n_messages < max_messages
    → (shown (log_add ctx level msg) ctx.n_messages ≡ entry level msg)
      × ((i : ℕ) → i < ctx.n_messages → shown (log_add ctx level msg) i ≡ shown ctx i)
      × ((log_add ctx level msg).n_messages ≡ ctx.n_messages + 1)
unfolding log_add
log_add_room ctx level msg v room =
    rw (lt→ltb ctx.n_messages max_messages room, v.start room)
      (
        ap (λ k. get_or (set ms n e) k no_entry) {x = (0 + n) % 100} {y = n} (omega arith)
            ∙ get_or-set_self ms n e no_entry (omega (arith, v.slots)),
        λ i h. get_or-set_ne ms n ((0 + i) % 100) e no_entry (omega arith),
        refl,
      )
  where
    ms : List Entry
    ms = ctx.messages

    n : ℕ
    n = ctx.n_messages

    e : Entry
    e = entry level msg

-- A full log: the new message takes the second slot from the start and is shown first, the
-- second oldest is lost, and the oldest is shown last.
pub log_add_full :
    (ctx : Log) (level : ℕ) (msg : String)
    → IsValid ctx
    → ctx.n_messages ≡ max_messages
    → (shown (log_add ctx level msg) 0 ≡ entry level msg)
      × ((i : ℕ) → 0 < i → i < 99 → shown (log_add ctx level msg) i ≡ shown ctx (i + 1))
      × (shown (log_add ctx level msg) 99 ≡ shown ctx 0)
unfolding log_add
log_add_full ctx level msg v full =
    rw (le→ltb ctx.n_messages max_messages (omega (arith, full)), full)
      (
        ap (λ k. get_or (set ms w e) k no_entry) {x = (s + 1 + 0) % 100} {y = w} (omega arith)
            ∙ get_or-set_self ms w e no_entry (omega (arith, v.slots)),
        λ i lo hi.
            get_or-set_ne ms w ((s + 1 + i) % 100) e no_entry (omega arith)
            ∙ ap (λ k. get_or ms k no_entry) {x = (s + 1 + i) % 100} {y = (s + (i + 1)) % 100}
                (omega arith),
        get_or-set_ne ms w ((s + 1 + 99) % 100) e no_entry (omega arith)
            ∙ ap (λ k. get_or ms k no_entry) {x = (s + 1 + 99) % 100} {y = (s + 0) % 100}
                (omega arith),
      )
  where
    ms : List Entry
    ms = ctx.messages

    s : ℕ
    s = ctx.start_message

    -- the slot that is written
    w : ℕ
    w = (s + 1 + 100) % 100

    e : Entry
    e = entry level msg
