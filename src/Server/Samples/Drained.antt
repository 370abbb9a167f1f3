-- ===== src/Server/Samples/Drained.antt =====
-- A flush of an i915 perf stream sends what the kernel has.
use gputop.Base.{
  ℕ, ◌+◌, ◌-◌, ◌≤◌, ◌<◌, ◌≡◌, refl, sym, ap, ◌∙◌, arith, Bool, true, false, Option, none, some,
  List, [], ◌∷◌, ◌++◌, ltb, lt→ltb, if◌then◌else◌, length, ◌>>=◌, All, length-append, ◌⊎◌, inl, inr,
}
use gputop.Server.Samples.{
  OaStream, oa_header, flush_i915_perf_stream_samples, oa_finished, Call, after_read, read_samples,
  fragmented_i915_perf_read, send_samples,
}

-- What the documentation of the kernel promises: a read with room for a record returns some of the
-- bytes that are pending, in order, and fails when none is pending.
pub record Kernel {K : Type 0} (read : ℕ → K → Option (List ℕ × K)) (pending : K → List ℕ)
    (record_size : ℕ) : Type 0 where
  pub nothing : (len : ℕ) (k : K) → pending k ≡ [] → read len k ≡ none
  pub something :
      (len : ℕ) (k : K)
      → record_size ≤ len
      → 0 < length (pending k)
      → (r : List ℕ × K) × (read len k ≡ some r)
        × (pending k ≡ r.0 ++ pending r.1)
        × (0 < length r.0)

append_nil : (xs : List ℕ) → xs ++ [] ≡ xs
append_nil [] = refl
append_nil (x ∷ xs) = ap (λ l. x ∷ l) (append_nil xs)

append_assoc : (xs ys zs : List ℕ) → (xs ++ ys) ++ zs ≡ xs ++ (ys ++ zs)
append_assoc [] ys zs = refl
append_assoc (x ∷ xs) ys zs = ap (λ l. x ∷ l) (append_assoc xs ys zs)

empty_cases : (xs : List ℕ) → (xs ≡ []) ⊎ (0 < length xs)
empty_cases [] = inl refl
empty_cases (x ∷ xs) = inr (omega arith)

module _ {K : Type 0} (read : ℕ → K → Option (List ℕ × K)) (pending : K → List ℕ) (record_size : ℕ)
    (kernel : Kernel read pending record_size) where
  -- What follows a call of the callback.
  abbrev after : List ℕ → Call read → Option (List ℕ × OaStream × K)
  after lens r =
      let rest = send_samples read lens r.2 r.3 in
      if r.1 then some (r.0, r.2, r.3) else (rest >>= λ q. some (r.0 ++ q.0, q.1, q.2))

  -- A result in which the kernel has nothing left.
  abbrev Sends : Option (List ℕ × OaStream × K) → OaStream → List ℕ → Type 0
  Sends result s bytes =
      (s' : OaStream) × (k' : K) × (result ≡ some (bytes, s', k'))
      × (pending k' ≡ [])
      × (s'.flushing ≡ false)
      × (s'.closing ≡ (if s.pending_close then true else s.closing))

  by_path :
      {a b : Option (List ℕ × OaStream × K)} (s : OaStream) (bytes : List ℕ)
      → a ≡ b
      → Sends b s bytes
      → Sends a s bytes
  by_path s bytes e c = (c.0, c.1, e ∙ c.2, c.3, c.4, c.5)

  -- A call of the callback, by its two tests.
  abbrev a_call : OaStream → K → ℕ → Bool → Bool → Option (Call read)
  a_call s k len enough written =
      let headed =
        read_samples read (oa_header s.id) (record s { header_written = true }) k (len - 8) in
      if written then some (read_samples read [] s k len) else if enough then some headed else none

  -- The start of a flush.
  abbrev flushed : OaStream → Bool → OaStream
  flushed s busy =
      if busy then s else record s { flushing = true; header_written = false; total_len = 0 }

  -- A call, when the calls after it send the rest.
  one_call :
      (lens header : List ℕ) (s : OaStream) (k : K) (len : ℕ)
      → ((s : OaStream) (k : K)
          → s.header_written ≡ true
          → length (pending k) < length lens
          → Sends (send_samples read lens s k) s (pending k))
      → record_size ≤ len
      → s.header_written ≡ true
      → length (pending k) ≤ length lens
      → Sends (after lens (read_samples read header s k len)) s (header ++ pending k)
  unfolding after_read oa_finished
  one_call lens header s k len ih room w fits = elim (empty_cases (pending k)) [
    | inl e ↦ (
      oa_finished s,
      k,
      ap (λ o. after lens (after_read read header s k o)) (kernel.nothing len k e)
          ∙ ap (λ b. some (b, oa_finished s, k))
              (sym (append_nil header) ∙ ap (λ l. header ++ l) (sym e)),
      e,
      refl,
      refl,
    )
    | inr pos ↦
        let r = kernel.something len k room pos in
        let l = length-append {0} r.0.0 (pending r.0.1) in
        let s1 = record s { total_len = s.total_len + (length header + length r.0.0) } in
        let rest = ih s1 r.0.1 w (omega (arith, l, ap length r.2, r.3, fits)) in
        (
          rest.0,
          rest.1,
          ap (λ o. after lens (after_read read header s k o)) r.1
              ∙ ap (λ o. o >>= λ q. some ((header ++ r.0.0) ++ q.0, q.1, q.2)) rest.2
              ∙ ap (λ b. some (b, rest.0, rest.1))
                  (append_assoc header r.0.0 (pending r.0.1) ∙ ap (λ l. header ++ l) (sym r.2)),
          rest.3,
          rest.4,
          rest.5,
        )
  ]

  send_rest :
      (lens : List ℕ)
      → All (λ len. record_size ≤ len) lens
      → (s : OaStream) (k : K) → s.header_written ≡ true
      → length (pending k) < length lens
      → Sends (send_samples read lens s k) s (pending k)
  unfolding send_samples fragmented_i915_perf_read
  send_rest [] h s k w fits = absurd (omega arith)
  send_rest (len ∷ lens) h s k w fits =
      by_path s (pending k) (ap (λ b. a_call s k len (ltb 8 len) b >>= after lens) w)
        (one_call lens [] s k len (send_rest lens h.1) h.0 w (omega (arith, fits)))

  -- A flush of an i915 perf stream sends, in fragments of any sizes with room for a record and, in
  -- the first, for the header, one message: the header and then all bytes that the kernel has, once
  -- and in order, when there are more fragments than bytes. The kernel then has nothing left, the
  -- stream is no longer flushing, and a closing that was put off is done.
  pub send_samples-drained :
      (len : ℕ) (lens : List ℕ) (s : OaStream) (k : K)
      → s.flushing ≡ false
      → 8 < len
      → record_size ≤ len - 8
      → All (λ len. record_size ≤ len) lens
      → length (pending k) ≤ length lens
      → Sends
          (send_samples read (len ∷ lens) (flush_i915_perf_stream_samples s) k)
          s
          (oa_header s.id ++ pending k)
  unfolding send_samples fragmented_i915_perf_read flush_i915_perf_stream_samples
  send_samples-drained len lens s k idle header room h fits =
      let s0 = record s { flushing = true; header_written = true; total_len = 0 } in
      let s1 = record s { flushing = true; header_written = false; total_len = 0 } in
      by_path s (oa_header s.id ++ pending k)
        (ap (λ b. send_samples read (len ∷ lens) (flushed s b) k) idle
          ∙ ap (λ b. a_call s1 k len b false >>= after lens) (lt→ltb 8 len header))
        (one_call lens (oa_header s.id) s0 k (len - 8) (send_rest lens h) room refl fits)
