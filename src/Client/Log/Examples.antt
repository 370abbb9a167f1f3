-- ===== src/Client/Log/Examples.antt =====
-- The theorems on the message log at concrete inputs, and tests.
use gputop.Base.{ℕ, ◌+◌, ◌<◌, ◌≡◌, arith, refl, replicate}
use gputop.Client.Log.{Log, log_add, shown, empty}
use gputop.Client.Log.Order.{IsValid, entry, log_add_full}

empty-IsValid : IsValid empty
empty-IsValid = record { slots = refl; count = omega arith; start = λ _. refl }

abbrev full : Log
full = record { messages = replicate 100 (entry 1 "old"); start_message = 0; n_messages = 100 }

full-IsValid : IsValid full
full-IsValid = record { slots = refl; count = omega arith; start = λ _. refl }

log_add_full_example :
    (shown (log_add full 2 "new") 0 ≡ entry 2 "new")
    × ((i : ℕ) → 0 < i → i < 99 → shown (log_add full 2 "new") i ≡ shown full (i + 1))
    × (shown (log_add full 2 "new") 99 ≡ shown full 0)
log_add_full_example = log_add_full full 2 "new" full-IsValid refl
