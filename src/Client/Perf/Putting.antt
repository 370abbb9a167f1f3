-- ===== src/Client/Perf/Putting.antt =====
-- Putting samples away: the chunks that they hold and the context that they use.
use gputop.Base.{
  ℕ, ◌+◌, ◌-◌, ◌≡◌, refl, ap, ◌∙◌, arith, Bool, Option, none, some, ◌==◌, if◌then◌else◌, Ensures,
  Ensures-some, Ensures-if, Ensures-bind,
}
use gputop.Client.Perf.{Samples, HwContext}
use gputop.Client.Perf.Contexts.{
  Store, remove_context, one_sample_less, free_context, put_hw_context, put_context,
  put_accumulated_sample, duration, hw_context_add_time,
}
use gputop.Client.Perf.Counting.{
  here, held_by, held_by_all, held_by_current, Holds, Holds-ext, put_reports-Holds, put_all-Holds,
  put_current-Holds,
}
use gputop.Client.Perf.Stored.{
  Stored, uses, n_samples_at, held_by_contexts, Found, find_context-Found, find_context-some,
  number_rows-Renumbered, update_context-Renumbered,
}

pub Stored-ext :
    {b : Bool} {next : ℕ} {f g f' g' : ℕ → ℕ} {st : Store}
    → Stored b next f g st
    → ((j : ℕ) → f j ≡ f' j)
    → ((h : ℕ) → g h ≡ g' h)
    → Stored b next f' g' st
Stored-ext v e e' = record {
  contexts = v.contexts;
  samples = λ h. v.samples h ∙ e' h;
  chunks = Holds-ext v.chunks (λ j. omega (arith, e j));
}

-- What a context counts, where it is known which it is.
pub n_samples_at_id :
    (c : HwContext) (k h : ℕ) → c.hw_id ≡ k → n_samples_at c h ≡ (if k == h then c.n_samples else 0)
n_samples_at_id c k h e = ap (λ t. if t == h then c.n_samples else 0) e

module _ {b : Bool} {next : ℕ} {f g : ℕ → ℕ} where
  free_context-Stored :
      (k : ℕ) (st : Store) (c : HwContext)
      → Stored b next f (λ h. here k h + g h) st
      → Found b k st.0 c
      → c.n_samples ≡ 1
      → Ensures (free_context k c st) (Stored b next f g)
  unfolding free_context
  free_context-Stored k st c v found one =
      let left = remove_context k st.0 in
      let rows = number_rows-Renumbered b 0 left in
      let all : Holds next
          (λ j.
            held_by_all c.graphs j
            + (held_by_current c.current_graph_samples j + (held_by_contexts left j + f j)))
          st.1 =
        Holds-ext v.chunks (λ j. omega (arith, found.removed_held j)) in
      Ensures-bind (put_all-Holds c.graphs all) (λ chunks1 v1.
        Ensures-bind (put_current-Holds c.current_graph_samples v1) (λ chunks2 v2.
          Ensures-some _ (record {
            contexts = rows.valid (found.removed v.contexts);
            samples = λ h. ground (
              arith,
              rows.samples h,
              found.removed_samples h,
              v.samples h,
              one,
              n_samples_at_id c k h found.id,
            );
            chunks = Holds-ext v2 (λ j. omega (arith, rows.held j));
          })))

  put_hw_context-Stored :
      (k : ℕ) (st : Store)
      → Stored b next f (λ h. here k h + g h) st
      → Ensures (put_hw_context k st) (Stored b next f g)
  unfolding put_hw_context
  put_hw_context-Stored k st v =
      let c = find_context-some k st.0 (ground (arith, v.samples k)) in
      let found = find_context-Found b k st.0 c.0 c.1 in
      let valid = found.valid v.contexts in
      rw c.1 (
        Ensures-if (c.0.n_samples - 1 == 0)
          (λ z. free_context-Stored k st c.0 v found (ground (arith, valid.0)))
          (λ z. Ensures-some _ (record {
            contexts =
                found.updated one_sample_less v.contexts (ground arith, valid.1, valid.2, valid.3);
            samples = λ h. ground (
              arith,
              found.updated_samples one_sample_less h,
              v.samples h,
              n_samples_at_id c.0 k h found.id,
              n_samples_at_id (one_sample_less c.0) k h found.id,
              valid.0,
            );
            chunks = Holds-ext v.chunks (λ j. omega (arith, found.updated_held one_sample_less j));
          })))

  put_context-Stored :
      (o : Option ℕ) (st : Store)
      → Stored b next f (λ h. uses o h + g h) st
      → Ensures (put_context o st) (Stored b next f g)
  unfolding put_context
  put_context-Stored none st v = Ensures-some _ (Stored-ext v (λ j. refl) (λ h. omega arith))
  put_context-Stored (some k) st v = put_hw_context-Stored k st v

  -- `put_accumulated_sample` does not fail where the samples hold their chunks and use their
  -- context, and gives all of that up.
  pub put_accumulated_sample-Stored :
      (s : Samples) (st : Store)
      → Stored b next (λ j. held_by s j + f j) (λ h. uses s.context h + g h) st
      → Ensures (put_accumulated_sample s st) (Stored b next f g)
  unfolding put_accumulated_sample
  put_accumulated_sample-Stored s st v =
      let all : Holds next (λ j. held_by s j + (held_by_contexts st.0 j + f j)) st.1 =
        Holds-ext v.chunks (λ j. omega arith) in
      Ensures-bind (put_reports-Holds s all) (λ chunks h.
        put_context-Stored s.context (st.0, chunks)
          (record { contexts = v.contexts; samples = v.samples; chunks = h }))

  -- The time that a context spent is no part of the account.
  pub hw_context_add_time-Stored :
      (s : Samples) (add : Bool) (st : Store) (k : ℕ)
      → s.context ≡ some k
      → Stored b next f g st
      → Ensures (hw_context_add_time s add st.0) (λ cs. Stored b next f g (cs, st.1))
  unfolding hw_context_add_time
  hw_context_add_time-Stored s add st k e v =
      let same = update_context-Renumbered b k add (duration s) st.0 in
      rw e (
        Ensures-some _ (record {
          contexts = same.valid v.contexts;
          samples = λ h. same.samples h ∙ v.samples h;
          chunks = Holds-ext v.chunks (λ j. omega (arith, same.held j));
        }))
