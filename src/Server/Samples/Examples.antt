-- ===== src/Server/Samples/Examples.antt =====
-- A flush of an i915 perf stream whose kernel holds bytes, which it gives back two at a time.
use gputop.Base.{
  ℕ, suc, ◌≤◌, ◌≡◌, refl, arith, true, false, Option, none, some, List, [], ◌∷◌, ◌++◌, length,
}
use gputop.Server.Samples.{OaStream, oa_header, flush_i915_perf_stream_samples, send_samples}
use gputop.Server.Samples.Drained.{Kernel, send_samples-drained}

abbrev read_two : ℕ → List ℕ → Option (List ℕ × List ℕ)
read_two len [] = none
read_two len (x ∷ []) = some (x ∷ [], [])
read_two len (x ∷ y ∷ rest) = some (x ∷ y ∷ [], rest)

read_two-Kernel : Kernel read_two (λ k. k) 2
read_two-Kernel = record { nothing = two_nothing; something = two_something }
  where
    two_nothing : (len : ℕ) (k : List ℕ) → k ≡ [] → read_two len k ≡ none
    two_nothing len [] e = refl
    two_nothing len (x ∷ k) e = cc

    two_something :
        (len : ℕ) (k : List ℕ)
        → 2 ≤ len
        → suc 0 ≤ length k
        → (r : List ℕ × List ℕ) × (read_two len k ≡ some r)
          × (k ≡ r.0 ++ r.1)
          × (suc 0 ≤ length r.0)
    two_something len [] room pos = absurd (omega arith)
    two_something len (x ∷ []) room pos = ((x ∷ [], []), refl, refl, omega arith)
    two_something len (x ∷ y ∷ rest) room pos = ((x ∷ y ∷ [], rest), refl, refl, omega arith)

abbrev stream : OaStream
stream = record {
  id = 7;
  header_written = true;
  total_len = 40;
  flushing = false;
  pending_close = true;
  closing = false;
}

send_samples-drained_example :
    (s' : OaStream) × (k' : List ℕ) × (send_samples read_two
        (16 ∷ 4 ∷ 8 ∷ 4 ∷ [])
        (flush_i915_perf_stream_samples stream)
        (5 ∷ 6 ∷ 9 ∷ [])
      ≡ some (oa_header 7 ++ (5 ∷ 6 ∷ 9 ∷ []), s', k'))
    × (k' ≡ [])
    × (s'.flushing ≡ false)
    × (s'.closing ≡ true)
send_samples-drained_example =
    send_samples-drained read_two (λ k. k) 2 read_two-Kernel 16 (4 ∷ 8 ∷ 4 ∷ []) stream
      (5 ∷ 6 ∷ 9 ∷ []) refl (omega arith) (omega arith)
      (omega arith, (omega arith, (omega arith, tt))) (omega arith)
