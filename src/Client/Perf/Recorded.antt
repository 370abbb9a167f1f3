-- ===== src/Client/Perf/Recorded.antt =====
-- The end of samples: the lists that they join keep the account, and their counters.
use gputop.Base.{
  ℕ, ◌+◌, ◌-◌, ◌<◌, ◌≤◌, ◌≡◌, refl, arith, Bool, true, false, Option, none, some, List, [], ◌∷◌,
  ◌++◌, ltb, length, length-append, All, sub64, Ensures, Ensures-some, Ensures-if, Ensures-bind,
}
use gputop.Oa.Record.{PerfRecord}
use gputop.Client.Perf.{Chunk, Samples, HwContext, PerfContext}
use gputop.Client.Perf.Contexts.{Store}
use gputop.Client.Perf.Recording.{
  ended, remove_excess, end_timestamp, hw_context_record_for_time, record_contexts, remove_expired,
}
use gputop.Client.Perf.Counting.{
  here, held_by, held_by_all, Holds, Holds-ext, ref_i915_perf_chunk-Holds, put_reports-Holds,
}
use gputop.Client.Perf.Stored.{
  Stored, uses, uses_all, n_samples_at, n_samples_of, held_by_context, held_by_contexts, Plain,
  IsRunning, HasCurrent, IsContext,
}
use gputop.Client.Perf.Putting.{
  Stored-ext, put_accumulated_sample-Stored, hw_context_add_time-Stored,
}

-- What is left of a list of graph samples is counted, and at most `max_graphs` long.
pub record Left (max_graphs next : ℕ) (f : ℕ → ℕ) (r : ℕ × List Samples × List Chunk) : Type 0 where
  pub n : r.0 ≡ length r.1
  pub few : r.0 ≤ max_graphs
  pub plain : All Plain r.1
  pub chunks : Holds next (λ j. held_by_all r.1 j + f j) r.2

module _ (max_graphs : ℕ) {next : ℕ} {f : ℕ → ℕ} where
  pub remove_excess-Left :
      (n : ℕ) (ss : List Samples) (chunks : List Chunk)
      → n ≡ length ss
      → All Plain ss
      → Holds next (λ j. held_by_all ss j + f j) chunks
      → Ensures (remove_excess max_graphs n ss chunks) (Left max_graphs next f)
  unfolding remove_excess
  remove_excess-Left n [] chunks e p v =
      Ensures-if (ltb max_graphs n) (λ l. absurd (ground arith))
        (λ l. Ensures-some _ (record { n = e; few = omega arith; plain = p; chunks = v }))
  remove_excess-Left n (s ∷ ss) chunks e p v =
      Ensures-if (ltb max_graphs n)
        (λ l.
          let all : Holds next (λ j. held_by s j + (held_by_all ss j + f j)) chunks =
            Holds-ext v (λ j. omega arith) in
          Ensures-bind (put_reports-Holds s all)
            (λ chunks1 v1. remove_excess-Left (n - 1) ss chunks1 (omega arith) p.1 v1))
        (λ l. Ensures-some _ (record { n = e; few = ground arith; plain = p; chunks = v }))

pub held_by-ended :
    (k : ℕ) (header : PerfRecord) (t : ℕ) (s : Samples) (j : ℕ)
    → s.end_report ≡ none
    → held_by (ended k header t s) j ≡ here k j + held_by s j
unfolding ended
held_by-ended k header t s j e = rw e (omega arith)

pub held_by_all-append :
    (ss : List Samples) (s : Samples) (j : ℕ)
    → held_by_all (ss ++ s ∷ []) j ≡ held_by s j + held_by_all ss j
held_by_all-append [] s j = refl
held_by_all-append (t ∷ ss) s j = omega (arith, held_by_all-append ss s j)

pub uses_all-append :
    (ss : List Samples) (s : Samples) (h : ℕ)
    → uses_all (ss ++ s ∷ []) h ≡ uses s.context h + uses_all ss h
uses_all-append [] s h = refl
uses_all-append (t ∷ ss) s h = omega (arith, uses_all-append ss s h)

pub All-append_one {ℓ κ} :
    {A : Type ℓ} (P : A → Type κ) (xs : List A) (x : A) → All P xs → P x → All P (xs ++ x ∷ [])
All-append_one P [] x a p = (p, tt)
All-append_one P (y ∷ xs) x a p = (a.0, All-append_one P xs x a.1 p)

-- A context after the end of its samples: the references are the same and the one to `chunk`.
record RecordedContext (next : ℕ) (f : ℕ → ℕ) (c : HwContext) (r : HwContext × List Chunk)
    : Type 0 where
  valid : IsContext false r.0
  same_id : r.0.hw_id ≡ c.hw_id
  same_samples : r.0.n_samples ≡ c.n_samples
  chunks : Holds next (λ j. held_by_context r.0 j + f j) r.1

pub has_current :
    (o : Option Samples) → HasCurrent true o → Ensures o (λ s. (o ≡ some s) × IsRunning s)
has_current none h = absurd h
has_current (some s) h = Ensures-some _ (refl, h)

module _ (ctx : PerfContext) (chunk : ℕ) (header : PerfRecord) {next : ℕ} {f : ℕ → ℕ} where
  hw_context_record_for_time-Recorded :
      (c : HwContext) (chunks : List Chunk)
      → IsContext true c
      → Holds next (λ j. held_by_context c j + f j) chunks
      → 0 < f chunk
      → Ensures (hw_context_record_for_time ctx chunk header c chunks) (RecordedContext next f c)
  unfolding hw_context_record_for_time ended
  hw_context_record_for_time-Recorded c chunks valid v l =
      Ensures-bind (has_current c.current_graph_samples valid.3) (λ s h.
        Ensures-bind (ref_i915_perf_chunk-Holds chunk v (omega (arith, l))) (λ chunks1 v1.
          let t = end_timestamp ctx header s in
          let all : Holds next (λ j. held_by_all c.graphs j + (here chunk j + held_by s j + f j))
              chunks1 =
            Holds-ext v1 (λ j. rw h.0 (omega arith)) in
          Ensures-bind
            (remove_excess-Left ctx.max_graphs c.n_graphs c.graphs chunks1 valid.1 valid.2 all)
            (λ left r. Ensures-some _ (record {
              valid = (
                valid.0,
                omega (arith, r.n, length-append left.1 (ended chunk header t s ∷ [])),
                All-append_one Plain left.1 (ended chunk header t s) r.plain h.1.0,
                tt,
              );
              same_id = refl;
              same_samples = refl;
              chunks = Holds-ext r.chunks (λ j. omega (
                arith,
                held_by_all-append left.1 (ended chunk header t s) j,
                held_by-ended chunk header t s j h.1.1,
              ));
            }))))

-- The contexts after every one of them has started or ended its samples.
pub record Moved (b : Bool) (next : ℕ) (f : ℕ → ℕ) (cs : List HwContext) (st : Store) : Type 0 where
  pub valid : All (IsContext b) st.0
  pub same_samples : (h : ℕ) → n_samples_of st.0 h ≡ n_samples_of cs h
  pub chunks : Holds next (λ j. held_by_contexts st.0 j + f j) st.1

same_at :
    (c d : HwContext) (h : ℕ)
    → d.hw_id ≡ c.hw_id
    → d.n_samples ≡ c.n_samples
    → n_samples_at d h ≡ n_samples_at c h
same_at c d h e e' = rw (e, e') refl

module _ (ctx : PerfContext) (chunk : ℕ) (header : PerfRecord) where
  pub record_contexts-Moved :
      {next : ℕ} (f : ℕ → ℕ) (cs : List HwContext) (chunks : List Chunk)
      → All (IsContext true) cs
      → Holds next (λ j. held_by_contexts cs j + f j) chunks
      → 0 < f chunk
      → Ensures (record_contexts ctx chunk header cs chunks) (Moved false next f cs)
  unfolding record_contexts
  record_contexts-Moved f [] chunks valid v l =
      Ensures-some _ (record { valid = tt; same_samples = λ h. refl; chunks = v })
  record_contexts-Moved f (c ∷ cs) chunks valid v l =
      let all : Holds _ (λ j. held_by_context c j + (held_by_contexts cs j + f j)) chunks =
        Holds-ext v (λ j. omega arith) in
      Ensures-bind
        (hw_context_record_for_time-Recorded ctx chunk header c chunks valid.0 all
          (omega (arith, l)))
        (λ first r.
          let others : Holds _ (λ j. held_by_contexts cs j + (held_by_context first.0 j + f j))
              first.1 =
            Holds-ext r.chunks (λ j. omega arith) in
          Ensures-bind
            (record_contexts-Moved (λ j. held_by_context first.0 j + f j) cs first.1 valid.1 others
              (omega (arith, l)))
            (λ st rs. Ensures-some _ (record {
              valid = (r.valid, rs.valid);
              same_samples = λ h.
                  omega (arith, rs.same_samples h, same_at c first.0 h r.same_id r.same_samples);
              chunks = Holds-ext rs.chunks (λ j. omega arith);
            })))

abbrev pub HasContext : Samples → Type 0
HasContext s = (k : ℕ) × (s.context ≡ some k)

-- What is left of the time line is counted, and holds what it held.
pub record Unexpired (b : Bool) (next : ℕ) (f g : ℕ → ℕ) (r : ℕ × List Samples × Store)
    : Type 0 where
  pub n : r.0 ≡ length r.1
  pub contexts : All HasContext r.1
  pub stored : Stored b next (λ j. held_by_all r.1 j + f j) (λ h. uses_all r.1 h + g h) r.2

module _ (visible_ns now : ℕ) {b : Bool} {next : ℕ} {f g : ℕ → ℕ} where
  pub remove_expired-Unexpired :
      (n : ℕ) (ss : List Samples) (st : Store)
      → n ≡ length ss
      → All HasContext ss
      → Stored b next (λ j. held_by_all ss j + f j) (λ h. uses_all ss h + g h) st
      → Ensures (remove_expired visible_ns now n ss st) (Unexpired b next f g)
  unfolding remove_expired
  remove_expired-Unexpired n [] st e c v =
      Ensures-some _ (record { n = e; contexts = c; stored = v })
  remove_expired-Unexpired n (s ∷ ss) st e c v =
      Ensures-if (ltb visible_ns (sub64 now s.timestamp_start))
        (λ l. Ensures-bind (hw_context_add_time-Stored s false st c.0.0 c.0.1 v) (λ cs v1.
          let all : Stored b next (λ j. held_by s j + (held_by_all ss j + f j))
              (λ h. uses s.context h + (uses_all ss h + g h)) (cs, st.1) =
            Stored-ext v1 (λ j. omega arith) (λ h. omega arith) in
          Ensures-bind (put_accumulated_sample-Stored s (cs, st.1) all)
            (λ st1 v2. remove_expired-Unexpired (n - 1) ss st1 (omega arith) c.1 v2)))
        (λ l. Ensures-some _ (record { n = e; contexts = c; stored = v }))
