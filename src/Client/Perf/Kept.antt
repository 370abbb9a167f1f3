-- ===== src/Client/Perf/Kept.antt =====
-- The invariant of the samples of a client, and the start of samples.
use gputop.Base.{
  ℕ, ◌+◌, ◌≤◌, ◌≡◌, refl, sym, Bool, true, false, Option, none, some, length, All, Ensures,
  Ensures-some,
}
use mathlib.Core.Path.{subst}
use gputop.Oa.Report.{Report, IsReport}
use gputop.Oa.Record.{Configuration, PerfRecord}
use gputop.Oa.Accumulator.Invariant.{IsValid}
use gputop.Client.Perf.{Samples, PerfContext}
use gputop.Client.Perf.Stream.{last_report}
use gputop.Client.Perf.Counting.{here, held_by_all, held_by_current}
use gputop.Client.Perf.Stored.{Stored, uses, uses_all, Plain, IsRunning}
use gputop.Client.Perf.Getting.{IsSample, Ready}
use gputop.Client.Perf.Recorded.{HasContext}

-- Whether an aggregation period runs, from a whole report on.
abbrev pub IsPeriod : Bool → Configuration → Option Samples → Type 0
IsPeriod true config none = ⊥
IsPeriod true config (some s) = IsRunning s × IsSample config s.start_report.header
IsPeriod false config none = Unit
IsPeriod false config (some s) = ⊥

-- The samples on the time line that have not ended.
abbrev pub IsTimeline : Option Samples → Type 0
IsTimeline none = Unit
IsTimeline (some s) = HasContext s × (s.end_report ≡ none) × IsValid s.accumulator

abbrev pub held_last : Option ℕ → ℕ → ℕ
held_last none j = 0
held_last (some k) j = here k j

abbrev pub uses_current : Option Samples → ℕ → ℕ
uses_current none h = 0
uses_current (some s) h = uses s.context h

-- The references of a client to a chunk, but for those of its hardware contexts.
abbrev pub outside : PerfContext → ℕ → ℕ
outside ctx j =
    held_last ctx.last_chunk j
    + held_by_current ctx.current_graph_samples j
    + held_by_all ctx.graphs j
    + held_by_current ctx.current_timeline_samples j
    + held_by_all ctx.timelines j

-- The uses of a hardware context.
abbrev pub users : PerfContext → ℕ → ℕ
users ctx h = uses_current ctx.current_timeline_samples h + uses_all ctx.timelines h

abbrev pub IsReports : Option Report → Type 0
IsReports none = Unit
IsReports (some r) = IsReport r

-- The invariant. `last` is the last report, and `f` are the references that a function holds
-- while it runs. A period may have ended for the device and not yet for the contexts.
pub record KeptWith (config : Configuration) (last : Option Report) (period running : Bool)
    (f : ℕ → ℕ) (ctx : PerfContext) : Type 0 where
  pub same : ctx.i915_perf_config ≡ config
  pub ready : Ready ctx
  pub last_is : last_report ctx ≡ last
  pub last_whole : IsReports last
  pub current : IsPeriod period config ctx.current_graph_samples
  pub graphs : All Plain ctx.graphs
  pub n_graphs : ctx.n_graphs ≡ length ctx.graphs
  pub few : ctx.n_graphs ≤ ctx.max_graphs + 1
  pub timeline : IsTimeline ctx.current_timeline_samples
  pub timelines : All HasContext ctx.timelines
  pub n_timelines : ctx.n_timelines ≡ length ctx.timelines
  pub stored :
      Stored running ctx.next_chunk
        (λ j. outside ctx j + f j)
        (users ctx)
        (ctx.hw_contexts, ctx.i915_perf_chunks)

abbrev pub Kept : Configuration → Option Report → Bool → (ℕ → ℕ) → PerfContext → Type 0
Kept config last running f ctx = KeptWith config last running running f ctx

-- A record is a whole sample under the configuration of the state too.
pub its-IsSample :
    {config : Configuration} {last : Option Report} {a b : Bool} {f : ℕ → ℕ} {ctx : PerfContext}
    (header : PerfRecord)
    → KeptWith config last a b f ctx
    → IsSample config header
    → IsSample ctx.i915_perf_config header
its-IsSample header k s = subst (λ c. IsSample c header) (sym k.same) s

pub no_period : (config : Configuration) (o : Option Samples) → IsPeriod false config o → o ≡ none
no_period config none h = refl
no_period config (some s) h = absurd h

pub has_period :
    (config : Configuration) (o : Option Samples)
    → IsPeriod true config o
    → Ensures o (λ s. (o ≡ some s) × IsRunning s × IsSample config s.start_report.header)
has_period config none h = absurd h
has_period config (some s) h = Ensures-some _ (refl, h.0, h.1)
