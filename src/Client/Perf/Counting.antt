-- ===== src/Client/Perf/Counting.antt =====
-- The reference counts of the chunks are the references that are held: what taking and giving up
-- references does, as an account of who holds them.
use gputop.Base.{
  ℕ, ◌+◌, ◌-◌, ◌<◌, ◌≡◌, ◌∙◌, arith, Option, none, some, List, [], ◌∷◌, ◌==◌, if◌then◌else◌, All,
  Ensures, Ensures-some, Ensures-if, Ensures-bind, Ensures-mono,
}
use gputop.Client.Perf.{
  Chunk, Held, Samples, ref_i915_perf_chunk, put_i915_perf_chunk, put_held, put_reports,
}
use gputop.Client.Perf.Contexts.{put_all, put_current}

-- One, for a thing and itself.
abbrev pub here : ℕ → ℕ → ℕ
here k j = if k == j then 1 else 0

abbrev counted : Chunk → ℕ → ℕ
counted c j = if c.id == j then c.refcount else 0

-- The count of a chunk; 0 is a chunk that is not there.
abbrev pub refcount : List Chunk → ℕ → ℕ
refcount [] j = 0
refcount (c ∷ cs) j = counted c j + refcount cs j

abbrev pub held : Option Held → ℕ → ℕ
held none j = 0
held (some h) j = here h.chunk j

-- The references of samples to a chunk.
abbrev pub held_by : Samples → ℕ → ℕ
held_by s j = here s.start_report.chunk j + held s.end_report j

abbrev pub held_by_all : List Samples → ℕ → ℕ
held_by_all [] j = 0
held_by_all (s ∷ ss) j = held_by s j + held_by_all ss j

abbrev pub held_by_current : Option Samples → ℕ → ℕ
held_by_current none j = 0
held_by_current (some s) j = held_by s j

abbrev pub IsChunk : ℕ → Chunk → Type 0
IsChunk next c = (0 < c.refcount) × (c.id < next)

-- Every chunk is counted as the account says, and none stays without a reference.
pub record Holds (next : ℕ) (f : ℕ → ℕ) (cs : List Chunk) : Type 0 where
  pub counts : (j : ℕ) → refcount cs j ≡ f j
  pub live : All (IsChunk next) cs

pub Holds-ext :
    {next : ℕ} {f g : ℕ → ℕ} {cs : List Chunk}
    → Holds next f cs
    → ((j : ℕ) → f j ≡ g j)
    → Holds next g cs
Holds-ext h e = record { counts = λ j. h.counts j ∙ e j; live = h.live }

here_self : (k : ℕ) → here k k ≡ 1
here_self k = ground arith

ref_lem :
    (next k : ℕ) (cs : List Chunk)
    → All (IsChunk next) cs
    → 0 < refcount cs k
    → Ensures (ref_i915_perf_chunk k cs) (Holds next (λ j. here k j + refcount cs j))
unfolding ref_i915_perf_chunk
ref_lem next k [] a h = absurd (omega arith)
ref_lem next k (c ∷ cs) a h =
    Ensures-if (c.id == k)
      (λ e.
        Ensures-some _ (record { counts = λ j. ground arith; live = ((omega arith, a.0.1), a.1) }))
      (λ n. Ensures-bind (ref_lem next k cs a.1 (ground arith)) (λ cs' h'.
        Ensures-some _
          (record { counts = λ j. omega (arith, h'.counts j); live = (a.0, h'.live) })))

put_lem :
    (next k : ℕ) (cs : List Chunk)
    → All (IsChunk next) cs
    → 0 < refcount cs k
    → Ensures
        (put_i915_perf_chunk k cs)
        (λ cs'. ((j : ℕ) → here k j + refcount cs' j ≡ refcount cs j) × All (IsChunk next) cs')
unfolding put_i915_perf_chunk
put_lem next k [] a h = absurd (omega arith)
put_lem next k (c ∷ cs) a h =
    Ensures-if (c.id == k)
      (λ e.
        Ensures-if (c.refcount - 1 == 0) (λ z. Ensures-some _ (λ j. ground (arith, a.0.0), a.1))
          (λ z. Ensures-some _ (λ j. ground (arith, a.0.0), ((ground arith, a.0.1), a.1))))
      (λ n.
        Ensures-bind (put_lem next k cs a.1 (ground arith))
          (λ cs' h'. Ensures-some _ (λ j. omega (arith, h'.0 j), (a.0, h'.1))))

module _ {next : ℕ} {f : ℕ → ℕ} {cs : List Chunk} where
  -- A reference to a chunk that is held is one reference more.
  pub ref_i915_perf_chunk-Holds :
      (k : ℕ)
      → Holds next f cs
      → 0 < f k
      → Ensures (ref_i915_perf_chunk k cs) (Holds next (λ j. here k j + f j))
  ref_i915_perf_chunk-Holds k h l =
      Ensures-mono (ref_lem next k cs h.live (rw (h.counts k) l))
        (λ cs' h'. Holds-ext h' (λ j. omega (arith, h.counts j)))

module _ {next : ℕ} {f : ℕ → ℕ} where
  -- A reference that is given up was held, and is one reference less.
  pub put_i915_perf_chunk-Holds :
      {cs : List Chunk} (k : ℕ)
      → Holds next (λ j. here k j + f j) cs
      → Ensures (put_i915_perf_chunk k cs) (Holds next f)
  put_i915_perf_chunk-Holds {cs = cs} k h =
      Ensures-mono (put_lem next k cs h.live (omega (arith, h.counts k, here_self k)))
        (λ cs' h'. record { counts = λ j. omega (arith, h.counts j, h'.0 j); live = h'.1 })

  pub put_held-Holds :
      {cs : List Chunk} (o : Option Held)
      → Holds next (λ j. held o j + f j) cs
      → Ensures (put_held o cs) (Holds next f)
  unfolding put_held
  put_held-Holds none h = Ensures-some _ (Holds-ext h (λ j. omega arith))
  put_held-Holds (some r) h = put_i915_perf_chunk-Holds r.chunk h

module _ {next : ℕ} {f : ℕ → ℕ} where
  pub put_reports-Holds :
      {cs : List Chunk} (s : Samples)
      → Holds next (λ j. held_by s j + f j) cs
      → Ensures (put_reports s cs) (Holds next f)
  unfolding put_reports
  put_reports-Holds s h =
      Ensures-bind (put_i915_perf_chunk-Holds s.start_report.chunk (Holds-ext h (λ j. omega arith)))
        (λ cs' h'. put_held-Holds s.end_report h')

module _ {next : ℕ} {f : ℕ → ℕ} where
  pub put_all-Holds :
      {cs : List Chunk} (ss : List Samples)
      → Holds next (λ j. held_by_all ss j + f j) cs
      → Ensures (put_all ss cs) (Holds next f)
  unfolding put_all
  put_all-Holds [] h = Ensures-some _ (Holds-ext h (λ j. omega arith))
  put_all-Holds (s ∷ ss) h =
      Ensures-bind (put_reports-Holds s (Holds-ext h (λ j. omega arith)))
        (λ cs' h'. put_all-Holds ss h')

  pub put_current-Holds :
      {cs : List Chunk} (o : Option Samples)
      → Holds next (λ j. held_by_current o j + f j) cs
      → Ensures (put_current o cs) (Holds next f)
  unfolding put_current
  put_current-Holds none h = Ensures-some _ (Holds-ext h (λ j. omega arith))
  put_current-Holds (some s) h = put_reports-Holds s h
