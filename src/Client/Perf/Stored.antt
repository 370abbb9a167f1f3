-- ===== src/Client/Perf/Stored.antt =====
-- The contexts and the chunks together: the account of who holds a chunk and who uses a context.
use gputop.Base.{
  ℕ, ◌+◌, ◌<◌, ◌≡◌, inl, inr, refl, sym, ap, ◌∙◌, arith, Bool, true, false, Option, none, some,
  List, [], ◌∷◌, ◌==◌, if◌then◌else◌, ==_iff, length, All, Bool-cases, maybe,
}
use mathlib.Core.Path.{subst}
use gputop.Oa.Accumulator.Invariant.{IsValid}
use gputop.Client.Perf.{Samples, HwContext}
use gputop.Client.Perf.Contexts.{
  Store, find_context, update_context, remove_context, number_rows, spend,
}
use gputop.Client.Perf.Counting.{here, held_by_all, held_by_current, Holds}

-- The samples of a context among some.
abbrev pub uses : Option ℕ → ℕ → ℕ
uses none h = 0
uses (some k) h = here k h

abbrev pub uses_all : List Samples → ℕ → ℕ
uses_all [] h = 0
uses_all (s ∷ ss) h = uses s.context h + uses_all ss h

abbrev pub n_samples_at : HwContext → ℕ → ℕ
n_samples_at c h = if c.hw_id == h then c.n_samples else 0

-- The count of samples that a context keeps; 0 is a context that is not there.
abbrev pub n_samples_of : List HwContext → ℕ → ℕ
n_samples_of [] h = 0
n_samples_of (c ∷ cs) h = n_samples_at c h + n_samples_of cs h

abbrev pub held_by_context : HwContext → ℕ → ℕ
held_by_context c j = held_by_current c.current_graph_samples j + held_by_all c.graphs j

abbrev pub held_by_contexts : List HwContext → ℕ → ℕ
held_by_contexts [] j = 0
held_by_contexts (c ∷ cs) j = held_by_context c j + held_by_contexts cs j

abbrev pub Plain : Samples → Type 0
Plain s = s.context ≡ none

-- Samples without a context that have not ended.
abbrev pub IsRunning : Samples → Type 0
IsRunning s = Plain s × (s.end_report ≡ none) × IsValid s.accumulator

-- Whether an aggregation period runs, in which every context has its samples.
abbrev pub HasCurrent : Bool → Option Samples → Type 0
HasCurrent true none = ⊥
HasCurrent true (some s) = IsRunning s
HasCurrent false none = Unit
HasCurrent false (some s) = ⊥

abbrev pub IsContext : Bool → HwContext → Type 0
IsContext running c =
    (0 < c.n_samples)
    × (c.n_graphs ≡ length c.graphs)
    × All Plain c.graphs
    × HasCurrent running c.current_graph_samples

-- The contexts are well formed, each counts the samples that use it, and each chunk is counted:
-- `f` and `g` are the references and the uses that are held from outside.
pub record Stored (running : Bool) (next : ℕ) (f g : ℕ → ℕ) (st : Store) : Type 0 where
  pub contexts : All (IsContext running) st.0
  pub samples : (h : ℕ) → n_samples_of st.0 h ≡ g h
  pub chunks : Holds next (λ j. held_by_contexts st.0 j + f j) st.1

-- A context that was found, and what changing it or removing it does to the sums.
pub record Found (running : Bool) (k : ℕ) (cs : List HwContext) (c : HwContext) : Type 0 where
  pub id : c.hw_id ≡ k
  pub valid : All (IsContext running) cs → IsContext running c
  pub updated_held :
      (f : HwContext → HwContext) (j : ℕ)
      → held_by_contexts (update_context k f cs) j + held_by_context c j
        ≡ held_by_contexts cs j + held_by_context (f c) j
  pub updated_samples :
      (f : HwContext → HwContext) (h : ℕ)
      → n_samples_of (update_context k f cs) h + n_samples_at c h
        ≡ n_samples_of cs h + n_samples_at (f c) h
  pub updated :
      (f : HwContext → HwContext)
      → All (IsContext running) cs
      → IsContext running (f c)
      → All (IsContext running) (update_context k f cs)
  pub removed_held :
      (j : ℕ)
      → held_by_contexts (remove_context k cs) j + held_by_context c j ≡ held_by_contexts cs j
  pub removed_samples :
      (h : ℕ) → n_samples_of (remove_context k cs) h + n_samples_at c h ≡ n_samples_of cs h
  pub removed : All (IsContext running) cs → All (IsContext running) (remove_context k cs)

Found-first :
    (b : Bool) (k : ℕ) (cs : List HwContext) (c : HwContext)
    → (c.hw_id == k) ≡ true
    → Found b k (c ∷ cs) c
unfolding update_context remove_context
Found-first b k cs c t = record {
  id = (==_iff c.hw_id k).0 t;
  valid = λ a. a.0;
  updated_held = λ f j. rw t (omega arith);
  updated_samples = λ f h. rw t (omega arith);
  updated = λ f a v. rw t (v, a.1);
  removed_held = λ j. rw t (omega arith);
  removed_samples = λ h. rw t (omega arith);
  removed = λ a. rw t a.1;
}

Found-later :
    (b : Bool) (k : ℕ) (cs : List HwContext) (d c : HwContext)
    → (d.hw_id == k) ≡ false
    → Found b k cs c
    → Found b k (d ∷ cs) c
unfolding update_context remove_context
Found-later b k cs d c n r = record {
  id = r.id;
  valid = λ a. r.valid a.1;
  updated_held = λ f j. rw n (omega (arith, r.updated_held f j));
  updated_samples = λ f h. rw n (omega (arith, r.updated_samples f h));
  updated = λ f a v. rw n (a.0, r.updated f a.1 v);
  removed_held = λ j. rw n (omega (arith, r.removed_held j));
  removed_samples = λ h. rw n (omega (arith, r.removed_samples h));
  removed = λ a. rw n (a.0, r.removed a.1);
}

pub find_context-Found :
    (b : Bool) (k : ℕ) (cs : List HwContext) (c : HwContext)
    → find_context k cs ≡ some c
    → Found b k cs c
unfolding find_context
find_context-Found b k [] c e = absurd cc
find_context-Found b k (d ∷ cs) c e =
    let same = λ (t : Bool). if t then some d else find_context k cs in
    elim (Bool-cases (d.hw_id == k)) [
      | inl t ↦
          subst (λ c. Found b k (d ∷ cs) c) (ap (λ o. maybe o d (λ x. x)) (sym (ap same t) ∙ e))
            (Found-first b k cs d t)
      | inr n ↦ Found-later b k cs d c n (find_context-Found b k cs c (sym (ap same n) ∙ e))
    ]

-- A context that is used is found.
pub find_context-some :
    (k : ℕ) (cs : List HwContext)
    → 0 < n_samples_of cs k
    → (c : HwContext) × (find_context k cs ≡ some c)
unfolding find_context
find_context-some k [] h = absurd (omega arith)
find_context-some k (c ∷ cs) h = elim (Bool-cases (c.hw_id == k)) [
  | inl t ↦ (c, rw t refl)
  | inr n ↦ let r = find_context-some k cs (ground arith) in (r.0, rw n r.1)
]

-- A context that is not found is not used.
pub find_context-none :
    (k : ℕ) (cs : List HwContext) → find_context k cs ≡ none → n_samples_of cs k ≡ 0
unfolding find_context
find_context-none k [] e = refl
find_context-none k (c ∷ cs) e = elim (Bool-cases (c.hw_id == k)) [
  | inl t ↦ absurd cc
  | inr n ↦ rw n (omega (arith, find_context-none k cs cc))
]

-- Neither does the numbering of the rows change what is counted.
pub record Renumbered (running : Bool) (cs cs' : List HwContext) : Type 0 where
  pub held : (j : ℕ) → held_by_contexts cs' j ≡ held_by_contexts cs j
  pub samples : (h : ℕ) → n_samples_of cs' h ≡ n_samples_of cs h
  pub valid : All (IsContext running) cs → All (IsContext running) cs'

pub number_rows-Renumbered :
    (b : Bool) (i : ℕ) (cs : List HwContext) → Renumbered b cs (number_rows i cs)
unfolding number_rows
number_rows-Renumbered b i [] = record { held = λ j. refl; samples = λ h. refl; valid = λ a. a }
number_rows-Renumbered b i (c ∷ cs) =
    let r = number_rows-Renumbered b (i + 1) cs in
    record {
      held = λ j. omega (arith, r.held j);
      samples = λ h. omega (arith, r.samples h);
      valid = λ a. (a.0, r.valid a.1);
    }

pub update_context-Renumbered :
    (b : Bool) (k : ℕ) (add : Bool) (delta : ℕ) (cs : List HwContext)
    → Renumbered b cs (update_context k (spend add delta) cs)
unfolding update_context
update_context-Renumbered b k add delta [] = record {
  held = λ j. refl;
  samples = λ h. refl;
  valid = λ a. a;
}
update_context-Renumbered b k add delta (c ∷ cs) =
    let r = update_context-Renumbered b k add delta cs in
    elim (Bool-cases (c.hw_id == k)) [
      | inl t ↦ record { held = λ j. rw t refl; samples = λ h. rw t refl; valid = λ a. rw t a }
      | inr n ↦ record {
        held = λ j. rw n (omega (arith, r.held j));
        samples = λ h. rw n (omega (arith, r.samples h));
        valid = λ a. rw n (a.0, r.valid a.1);
      }
    ]
