-- ===== src/Client/CpuStats/Window.antt =====
-- The statistics that are kept are the last ones.
use gputop.Base.{
  ℕ, zero, suc, ◌+◌, ◌-◌, ◌≤◌, ◌<◌, ◌≡◌, ◌≢◌, refl, ◌∙◌, true, false, some, List, [], ◌∷◌, ◌++◌,
  length, length-append, length-drop, drop, arith, ltb, le→ltb, ◌==◌, Bool-cases, inl, inr,
}
use gputop.Client.CpuStats.{CpuStats, stored, fault, pop_first, drop_excess, store, add_cpu_stats}

module _ {ℓ} (Message : Type ℓ) where
  -- The counter is the length of the list.
  abbrev pub IsCounted : CpuStats Message → Type 0
  IsCounted ctx = ctx.n_cpu_stats ≡ length ctx.cpu_stats

  -- The last `max` messages of a list.
  abbrev pub last_of : ℕ → List Message → List Message
  last_of max xs = drop (length xs - max) xs

  drop_excess_lem :
      (n : ℕ) (xs : List Message) → n ≤ length xs → drop_excess Message n xs ≡ some (drop n xs)
  unfolding drop_excess
  drop_excess_lem zero xs h = refl
  drop_excess_lem (suc n) [] h = absurd (omega arith)
  drop_excess_lem (suc n) (x ∷ xs) h = drop_excess_lem n xs (omega arith)

  drop-append_lem :
      (n : ℕ) (xs ys : List Message) → n ≤ length xs → drop n (xs ++ ys) ≡ drop n xs ++ ys
  drop-append_lem zero xs ys h = refl
  drop-append_lem (suc n) [] ys h = absurd (omega arith)
  drop-append_lem (suc n) (x ∷ xs) ys h = drop-append_lem n xs ys (omega arith)

  pop_first-drop :
      (n : ℕ) (xs : List Message)
      → n < length xs
      → pop_first Message (drop n xs) ≡ some (drop (suc n) xs)
  pop_first-drop n [] h = absurd (omega arith)
  pop_first-drop zero (x ∷ xs) h = refl
  pop_first-drop (suc n) (x ∷ xs) h = pop_first-drop n xs (omega arith)

  drop_whole : (xs : List Message) → drop (length xs) xs ≡ []
  drop_whole [] = refl
  drop_whole (x ∷ xs) = drop_whole xs

  accepted :
      (max : ℕ) (ctx : CpuStats Message) (message : Message)
      → ctx.stream ≢ 0
      → add_cpu_stats Message max ctx ctx.stream message
        ≡ store Message max message ctx.stream
            (ctx.n_cpu_stats - (ctx.n_cpu_stats - max))
            (drop_excess Message (ctx.n_cpu_stats - max) ctx.cpu_stats)
  unfolding add_cpu_stats
  accepted max ctx message opened =
      let off : (ctx.stream == 0) ≡ false = ground arith in
      let same : (ctx.stream == ctx.stream) ≡ true = ground arith in rw (off, same) refl

  -- For a window of at least one sample, a message of the open stream is stored, and what is
  -- kept are the last samples that fit the window, in order.
  pub add_cpu_stats_window :
      (max : ℕ) (ctx : CpuStats Message) (message : Message)
      → IsCounted ctx
      → ctx.stream ≢ 0
      → 0 < max
      → (after : CpuStats Message) × (add_cpu_stats Message max ctx ctx.stream message
          ≡ stored after)
        × (after.cpu_stats ≡ last_of max (ctx.cpu_stats ++ (message ∷ [])))
        × IsCounted after
        × (after.stream ≡ ctx.stream)
  add_cpu_stats_window max ctx message counted opened some_room =
      elim (Bool-cases (ltb (length xs) max)) [
        | inl few ↦
            let below : length xs < max = ground arith in
            let no_excess : ctx.n_cpu_stats - max ≡ 0 = omega (arith, counted) in
            let count : ctx.n_cpu_stats - 0 ≡ length xs = omega (arith, counted) in
            let whole : length (xs ++ (message ∷ [])) - max ≡ 0 =
              omega (arith, length-append xs (message ∷ [])) in
            (
              record {
                cpu_stats = xs ++ (message ∷ []);
                n_cpu_stats = length xs + 1;
                stream = ctx.stream;
              },
              accepted max ctx message opened
                  ∙ rw (no_excess, drop_excess_lem 0 xs (omega arith), count, few) refl,
              rw whole refl,
              omega (arith, length-append xs (message ∷ [])),
              refl,
            )
        | inr many ↦
            let above : max ≤ length xs = ground arith in
            let e = length xs - max in
            let excess : ctx.n_cpu_stats - max ≡ e = omega (arith, counted) in
            let count : ctx.n_cpu_stats - (ctx.n_cpu_stats - max) ≡ max = omega (arith, counted) in
            let full : ltb max max ≡ false = le→ltb max max (omega arith) in
            let taken : length (xs ++ (message ∷ [])) - max ≡ suc e =
              omega (arith, length-append xs (message ∷ [])) in
            (
              record {
                cpu_stats = drop (suc e) xs ++ (message ∷ []);
                n_cpu_stats = max;
                stream = ctx.stream;
              },
              accepted max ctx message opened
                  ∙ rw
                      (
                        count,
                        excess,
                        drop_excess_lem e xs (omega arith),
                        full,
                        pop_first-drop e xs (omega arith),
                      )
                      refl,
              rw (taken, drop-append_lem (suc e) xs (message ∷ []) (omega arith)) refl,
              omega (arith, length-append (drop (suc e) xs) (message ∷ []), length-drop (suc e) xs),
              refl,
            )
      ]
    where
      xs : List Message
      xs = ctx.cpu_stats

  -- A window of no samples reads the first entry of the empty list.
  pub add_cpu_stats_empty_window :
      (ctx : CpuStats Message) (message : Message)
      → IsCounted ctx
      → ctx.stream ≢ 0
      → add_cpu_stats Message 0 ctx ctx.stream message ≡ fault
  add_cpu_stats_empty_window ctx message counted opened =
      let excess : ctx.n_cpu_stats - 0 ≡ length ctx.cpu_stats = omega (arith, counted) in
      let none_left : ctx.n_cpu_stats - length ctx.cpu_stats ≡ 0 = omega (arith, counted) in
      accepted 0 ctx message opened
      ∙ rw
          (
            excess,
            drop_excess_lem (length ctx.cpu_stats) ctx.cpu_stats (omega arith),
            none_left,
            drop_whole ctx.cpu_stats,
          )
          refl
