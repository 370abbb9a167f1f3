-- ===== src/Client/Perf/Getting.antt =====
-- Getting samples: the chunk that they hold from their first report on, and the context that they use.
use gputop.Base.{
  ℕ, ◌+◌, ◌<◌, ◌≡◌, inl, inr, refl, arith, Bool, true, Option, none, some, List, [], ◌∷◌, ◌++◌,
  length, All, Bool-cases, Ensures, Ensures-some, Ensures-if, Ensures-bind, Ensures-maybe, Runs,
  Ensures-of,
}
use gputop.Oa.Report.{Report, IsReport}
use gputop.Oa.Accumulator.Formats.{IsFormat}
use gputop.Oa.Accumulator.Invariant.{IsValid, accumulator_init-IsValid}
use gputop.Oa.Record.{Configuration, PerfRecord, record_field, record_report}
use gputop.Client.Perf.{
  Chunk, Samples, HwContext, PerfContext, record_cpu_timestamp, report_timestamp,
  previous_timestamp, i915_perf_timestamp,
}
use gputop.Client.Perf.Contexts.{
  Store, new_samples, get_sample_of, find_context, one_sample_more, first_seen, new_hw_context,
  get_hw_context, get_accumulated_sample,
}
use gputop.Client.Perf.Counting.{here, held_by, Holds, Holds-ext, ref_i915_perf_chunk-Holds}
use gputop.Client.Perf.Stored.{
  Stored, held_by_context, n_samples_at, n_samples_of, held_by_contexts, IsContext,
  find_context-Found,
}
use gputop.Client.Perf.Putting.{n_samples_at_id}

-- A record with a whole report.
abbrev pub IsSample : Configuration → PerfRecord → Type 0
IsSample config header =
    (report : Report) × (record_report config header ≡ some report) × IsReport report

-- The last chunk and the last header are there together.
abbrev pub IsLast : Configuration → Option ℕ → Option PerfRecord → Type 0
IsLast config none none = Unit
IsLast config (some k) (some header) = IsSample config header
IsLast config none (some header) = ⊥
IsLast config (some k) none = ⊥

-- What new samples need of the state.
pub record Ready (ctx : PerfContext) : Type 0 where
  pub set : Ensures ctx.client.metric_set (λ set. IsFormat set.perf_oa_format)
  pub last : IsLast ctx.i915_perf_config ctx.last_chunk ctx.last_header

record_cpu_timestamp_total :
    (config : Configuration) (header : PerfRecord)
    → config.cpu_timestamps ≡ true
    → Runs (record_cpu_timestamp config header)
unfolding record_cpu_timestamp record_field
record_cpu_timestamp_total config header e = elim (Bool-cases config.gpu_timestamps) [
  | inl g ↦ rw (e, g) (Ensures-some _ tt)
  | inr g ↦ rw (e, g) (Ensures-some _ tt)
]

report_timestamp_total :
    (config : Configuration) (header : PerfRecord)
    → IsSample config header
    → Runs (report_timestamp config header)
unfolding report_timestamp
report_timestamp_total config header s = rw s.1 (Ensures-some _ tt)

previous_timestamp_total :
    (ctx : PerfContext) (ts : ℕ) (last : Option PerfRecord) (k : Option ℕ)
    → ctx.last_header ≡ last
    → IsLast ctx.i915_perf_config k last
    → Runs (previous_timestamp ctx ts)
unfolding previous_timestamp
previous_timestamp_total ctx ts none k e v = rw e (Ensures-some _ tt)
previous_timestamp_total ctx ts (some header) none e v = absurd v
previous_timestamp_total ctx ts (some header) (some k) e v =
    rw e (report_timestamp_total ctx.i915_perf_config header v)

-- `i915_perf_timestamp` reads no NULL report.
pub i915_perf_timestamp_total :
    (ctx : PerfContext) (header : PerfRecord)
    → IsLast ctx.i915_perf_config ctx.last_chunk ctx.last_header
    → IsSample ctx.i915_perf_config header
    → Runs (i915_perf_timestamp ctx header)
unfolding i915_perf_timestamp
i915_perf_timestamp_total ctx header last s =
    Ensures-if ctx.i915_perf_config.cpu_timestamps
      (λ e. record_cpu_timestamp_total ctx.i915_perf_config header e)
      (λ _. Ensures-bind (report_timestamp_total ctx.i915_perf_config header s) (λ ts _.
        Ensures-bind (previous_timestamp_total ctx ts ctx.last_header ctx.last_chunk refl last)
          (λ _ _. Ensures-some _ tt)))

-- Samples that have just begun.
pub record IsNew (context : Option ℕ) (chunk : ℕ) (header : PerfRecord) (s : Samples) : Type 0 where
  pub same_context : s.context ≡ context
  pub holds : (j : ℕ) → held_by s j ≡ here chunk j
  pub starts : s.start_report.header ≡ header
  pub unended : s.end_report ≡ none
  pub valid : IsValid s.accumulator

module _ (ctx : PerfContext) (ready : Ready ctx) where
  new_samples-IsNew :
      (context : Option ℕ) (chunk : ℕ) (header : PerfRecord)
      → IsSample ctx.i915_perf_config header
      → Ensures (new_samples ctx context chunk header) (IsNew context chunk header)
  unfolding new_samples
  new_samples-IsNew context chunk header s = Ensures-bind ready.set (λ set format.
      let a =
        accumulator_init-IsValid ctx.client.devinfo set ctx.client.oa_aggregation_period_ns
          (record_report ctx.i915_perf_config header) format in
      Ensures-bind (Ensures-of {P = IsValid} a.0 a.1 a.2) (λ accumulator v.
        Ensures-bind (i915_perf_timestamp_total ctx header ready.last s) (λ t _.
          Ensures-some _ (record {
            same_context = refl;
            holds = λ j. omega arith;
            starts = refl;
            unended = refl;
            valid = v;
          }))))

  module _ {next : ℕ} {f : ℕ → ℕ} where
    pub get_sample_of-Holds :
        (context : Option ℕ) (chunk : ℕ) (header : PerfRecord) (chunks : List Chunk)
        → IsSample ctx.i915_perf_config header
        → Holds next f chunks
        → 0 < f chunk
        → Ensures
            (get_sample_of ctx context chunk header chunks)
            (λ got. IsNew context chunk header got.0 × Holds next (λ j. here chunk j + f j) got.1)
    unfolding get_sample_of
    get_sample_of-Holds context chunk header chunks s v l =
        Ensures-bind (new_samples-IsNew context chunk header s) (λ samples new.
          Ensures-bind (ref_i915_perf_chunk-Holds chunk v l)
            (λ chunks1 v1. Ensures-some _ (new, v1)))

-- A context at the end of the list.
append_lem :
    (b : Bool) (cs : List HwContext) (c : HwContext)
    → ((j : ℕ) → held_by_contexts (cs ++ c ∷ []) j ≡ held_by_context c j + held_by_contexts cs j)
      × ((h : ℕ) → n_samples_of (cs ++ c ∷ []) h ≡ n_samples_at c h + n_samples_of cs h)
      × (All (IsContext b) cs → IsContext b c → All (IsContext b) (cs ++ c ∷ []))
append_lem b [] c = (λ j. refl, λ h. refl, λ a v. (v, tt))
append_lem b (d ∷ cs) c =
    let r = append_lem b cs c in
    (λ j. omega (arith, r.0 j), λ h. omega (arith, r.1 h), λ a v. (a.0, r.2 a.1 v))

-- An aggregation period runs, from a whole report in a chunk that is held.
abbrev pub Period : (ℕ → ℕ) → PerfContext → Type 0
Period f ctx =
    Ensures ctx.current_graph_samples
      (λ s. IsSample ctx.i915_perf_config s.start_report.header × (0 < f s.start_report.chunk))

module _ (ctx : PerfContext) (ready : Ready ctx) {next : ℕ} {f g : ℕ → ℕ} where
  new_hw_context-Stored :
      (k : ℕ) (st : Store)
      → Period f ctx
      → Stored true next f g st
      → Ensures (new_hw_context ctx k st) (Stored true next f (λ h. here k h + g h))
  unfolding new_hw_context
  new_hw_context-Stored k st p v = Ensures-bind p (λ s start.
      Ensures-bind
        (get_sample_of-Holds ctx ready none s.start_report.chunk s.start_report.header st.1 start.0
          v.chunks (omega (arith, start.1)))
        (λ got new.
          let c = first_seen k (length st.0) got.0 in
          let more = append_lem true st.0 c in
          Ensures-some _ (record {
            contexts =
                more.2 v.contexts
                  (omega arith, refl, tt, (new.0.same_context, new.0.unended, new.0.valid));
            samples = λ h. omega (arith, more.1 h, v.samples h);
            chunks = Holds-ext new.1 (λ j. omega (arith, more.0 j, new.0.holds j));
          })))

  get_hw_context-Stored :
      (k : ℕ) (st : Store)
      → Period f ctx
      → Stored true next f g st
      → Ensures (get_hw_context ctx k st) (Stored true next f (λ h. here k h + g h))
  unfolding get_hw_context
  get_hw_context-Stored k st p v =
      Ensures-maybe (find_context k st.0) (λ _. new_hw_context-Stored k st p v)
        (λ c e.
          let found = find_context-Found true k st.0 c e in
          let valid = found.valid v.contexts in
          Ensures-some _ (record {
            contexts =
                found.updated one_sample_more v.contexts (omega arith, valid.1, valid.2, valid.3);
            samples = λ h. ground (
              arith,
              found.updated_samples one_sample_more h,
              v.samples h,
              n_samples_at_id c k h found.id,
              n_samples_at_id (one_sample_more c) k h found.id,
            );
            chunks = Holds-ext v.chunks (λ j. omega (arith, found.updated_held one_sample_more j));
          }))

module _ (ctx : PerfContext) (ready : Ready ctx) {next : ℕ} {f g : ℕ → ℕ} where
  -- `get_accumulated_sample` of a context: the new samples hold the chunk and use the context.
  pub get_accumulated_sample-Stored :
      (chunk : ℕ) (header : PerfRecord) (k : ℕ) (st : Store)
      → IsSample ctx.i915_perf_config header
      → 0 < f chunk
      → Period f ctx
      → Stored true next f g st
      → Ensures (get_accumulated_sample ctx chunk header k st) (λ got.
        IsNew (some k) chunk header got.0
        × Stored true next (λ j. here chunk j + f j) (λ h. here k h + g h) got.1)
  unfolding get_accumulated_sample
  get_accumulated_sample-Stored chunk header k st s l p v =
      Ensures-bind (get_hw_context-Stored ctx ready k st p v) (λ st1 v1.
        Ensures-bind
          (get_sample_of-Holds ctx ready (some k) chunk header st1.1 s v1.chunks (omega (arith, l)))
          (λ got new. Ensures-some _ (
            new.0,
            record {
              contexts = v1.contexts;
              samples = v1.samples;
              chunks = Holds-ext new.1 (λ j. omega arith);
            },
          )))
