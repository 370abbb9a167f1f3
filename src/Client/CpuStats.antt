-- ===== src/Client/CpuStats.antt =====
-- The window of processor statistics that a client keeps: `add_cpu_stats` of
-- lib/gputop-client-context.c.
-- A message is its payload. `max_cpu_stats`, the number of samples in the visible timeline, is
-- an argument, since the source computes it with floating-point numbers.
pub mod Window
use gputop.Base.{
  ℕ, zero, suc, ◌+◌, ◌-◌, Bool, true, false, Option, none, some, List, [], ◌∷◌, ◌++◌, ltb, ◌==◌,
  not, ◌||◌, if◌then◌else◌,
}

module _ {ℓ} (Message : Type ℓ) where
  -- `cpu_stats`, from head to tail, `n_cpu_stats` and the id of `cpu_stats_stream`.
  pub record CpuStats : Type ℓ where
    pub cpu_stats : List Message
    pub n_cpu_stats : ℕ
    pub stream : ℕ

  -- What becomes of a message: refused, stored, or a fault, in which the first entry of an
  -- empty list is read.
  pub data Outcome : Type ℓ where
    refused : Outcome
    stored : CpuStats → Outcome
    fault : Outcome

  -- `list_first_entry`, and the rest of the list; `none` if there is no entry.
  abbrev pub pop_first : List Message → Option (List Message)
  pop_first [] = none
  pop_first (s ∷ rest) = some rest

  -- The `while` loop, which takes entries out at the head; `n` is the length above `max`.
  unfoldable pub drop_excess : ℕ → List Message → Option (List Message)
  drop_excess zero stats = some stats
  drop_excess (suc n) [] = none
  drop_excess (suc n) (s ∷ rest) = drop_excess n rest

  -- The rest of the function, on a list of `n` entries.
  abbrev pub store : ℕ → Message → ℕ → ℕ → Option (List Message) → Outcome
  store max message stream n none = fault
  store max message stream n (some stats) =
      if ltb n max
      then stored
          (record { cpu_stats = stats ++ (message ∷ []); n_cpu_stats = n + 1; stream = stream })
      else elim (pop_first stats) [
        | none ↦ fault
        | some rest ↦
            stored (record { cpu_stats = rest ++ (message ∷ []); n_cpu_stats = n; stream = stream })
      ]

  -- `add_cpu_stats`, for a message of the stream `id`.
  unfoldable pub add_cpu_stats : ℕ → CpuStats → ℕ → Message → Outcome
  add_cpu_stats max ctx id message =
      if (ctx.stream == 0) || not (id == ctx.stream)
      then refused
      else store max message ctx.stream (ctx.n_cpu_stats - (ctx.n_cpu_stats - max))
          (drop_excess (ctx.n_cpu_stats - max) ctx.cpu_stats)
