-- ===== src/Client/Tracepoints/Kept.antt =====
-- What adding and removing tracepoints keep, and what removing one leaves behind.
use mathlib.Core.Path.{subst}
use gputop.Base.{
  ℕ, suc, ◌+◌, ◌<◌, ◌≡◌, ◌≢◌, refl, sym, ap, ◌∙◌, arith, Option, none, some, List, [], ◌∷◌, ◌++◌,
  String, All, length, ◌==◌, ==_iff, Bool-cases, inl, inr, if◌then◌else◌, maybe, ◌>>=◌, Ensures,
  Ensures-of, Ensures-mono,
}
use gputop.Base.Table.{Table}
use gputop.Client.Tracepoints.{
  Tp, find_tp, list_del_tp, renumber, Registry, create_tracepoint, add_tracepoint,
  remove_tracepoint, without,
}

-- The tracepoints are numbered from `idx` on, in their order.
unfoldable pub Numbered : ℕ → List Tp → Type 0
Numbered idx [] = Unit
Numbered idx (tp ∷ tps) = (tp.idx ≡ idx) × Numbered (idx + 1) tps

-- No address stands twice in the list.
unfoldable pub Distinct : List Tp → Type 0
Distinct [] = Unit
Distinct (tp ∷ tps) = All (λ q. q.address ≢ tp.address) tps × Distinct tps

renumber-Numbered : (idx : ℕ) (tps : List Tp) → Numbered idx (renumber idx tps)
unfolding Numbered renumber
renumber-Numbered idx [] = tt
renumber-Numbered idx (tp ∷ tps) = (refl, renumber-Numbered (idx + 1) tps)

Numbered-snoc :
    (idx : ℕ) (tps : List Tp) (tp : Tp)
    → Numbered idx tps
    → tp.idx ≡ idx + length tps
    → Numbered idx (tps ++ (tp ∷ []))
unfolding Numbered
Numbered-snoc idx [] tp h e = (omega (arith, e), tt)
Numbered-snoc idx (q ∷ tps) tp h e = (h.0, Numbered-snoc (idx + 1) tps tp h.1 (omega (arith, e)))

-- What depends on addresses only is not changed by new numbers.
All-renumber :
    (P : ℕ → Type 0) (idx : ℕ) (tps : List Tp)
    → All (λ q. P q.address) tps
    → All (λ q. P q.address) (renumber idx tps)
unfolding renumber
All-renumber P idx [] h = tt
All-renumber P idx (tp ∷ tps) h = (h.0, All-renumber P (idx + 1) tps h.1)

Distinct-renumber : (idx : ℕ) (tps : List Tp) → Distinct tps → Distinct (renumber idx tps)
unfolding Distinct renumber
Distinct-renumber idx [] h = tt
Distinct-renumber idx (tp ∷ tps) h =
    (All-renumber (λ a. a ≢ tp.address) (idx + 1) tps h.0, Distinct-renumber (idx + 1) tps h.1)

All-list_del :
    (P : ℕ → Type 0) (address : ℕ) (tps : List Tp)
    → All (λ q. P q.address) tps
    → All (λ q. P q.address) (list_del_tp tps address)
unfolding list_del_tp
All-list_del P address [] h = tt
All-list_del P address (tp ∷ tps) h = elim (Bool-cases (tp.address == address)) [
  | inl here ↦ rw here h.1
  | inr other ↦ rw other (h.0, All-list_del P address tps h.1)
]

Distinct-list_del :
    (address : ℕ) (tps : List Tp) → Distinct tps → Distinct (list_del_tp tps address)
unfolding Distinct list_del_tp
Distinct-list_del address [] h = tt
Distinct-list_del address (tp ∷ tps) h = elim (Bool-cases (tp.address == address)) [
  | inl here ↦ rw here h.1
  | inr other ↦
      rw other
        (All-list_del (λ a. a ≢ tp.address) address tps h.0, Distinct-list_del address tps h.1)
]

-- A tracepoint that is taken off is the only one at its address.
list_del-gone :
    (address : ℕ) (tps : List Tp)
    → Distinct tps
    → All (λ q. q.address ≢ address) (list_del_tp tps address)
unfolding Distinct list_del_tp
list_del-gone address [] h = tt
list_del-gone address (tp ∷ tps) h = elim (Bool-cases (tp.address == address)) [
  | inl here ↦
      rw here (subst (λ a. All (λ q. q.address ≢ a) tps) ((==_iff tp.address address).0 here) h.0)
  | inr other ↦ rw other ((λ e. ground (arith, other, e)), list_del-gone address tps h.1)
]

find_tp-gone :
    (address : ℕ) (tps : List Tp) → All (λ q. q.address ≢ address) tps → find_tp tps address ≡ none
unfolding find_tp
find_tp-gone address [] h = refl
find_tp-gone address (tp ∷ tps) h = elim (Bool-cases (tp.address == address)) [
  | inl here ↦ absurd (h.0 ((==_iff tp.address address).0 here))
  | inr other ↦ rw other (find_tp-gone address tps h.1)
]

length-list_del :
    (address : ℕ) (tps : List Tp) (tp : Tp)
    → find_tp tps address ≡ some tp
    → length tps ≡ suc (length (list_del_tp tps address))
unfolding find_tp list_del_tp
length-list_del address [] tp e = absurd cc
length-list_del address (q ∷ tps) tp e = elim (Bool-cases (q.address == address)) [
  | inl here ↦ rw here refl
  | inr other ↦
      let found : find_tp tps address ≡ some tp =
        ap (λ b. if b then some q else find_tp tps address) (sym other) ∙ e in
      rw other (ap suc (length-list_del address tps tp found))
]

length-renumber : (idx : ℕ) (tps : List Tp) → length (renumber idx tps) ≡ length tps
unfolding renumber
length-renumber idx [] = refl
length-renumber idx (tp ∷ tps) = ap suc (length-renumber (idx + 1) tps)

All-snoc : (P : Tp → Type 0) (tps : List Tp) (tp : Tp) → All P tps → P tp → All P (tps ++ (tp ∷ []))
All-snoc P [] tp h k = (k, tt)
All-snoc P (q ∷ tps) tp h k = (h.0, All-snoc P tps tp h.1 k)

Distinct-snoc :
    (tps : List Tp) (tp : Tp)
    → Distinct tps
    → All (λ q. q.address < tp.address) tps
    → Distinct (tps ++ (tp ∷ []))
unfolding Distinct
Distinct-snoc [] tp h below = (tt, tt)
Distinct-snoc (q ∷ tps) tp h below = (
  All-snoc (λ r. r.address ≢ q.address) tps tp h.0 (λ e. omega (arith, e, below.0)),
  Distinct-snoc tps tp h.1 below.1,
)

All-below :
    (n : ℕ) (tps : List Tp) → All (λ q. q.address < n) tps → All (λ q. q.address < n + 1) tps
All-below n [] h = tt
All-below n (tp ∷ tps) h = (omega (arith, h.0), All-below n tps h.1)

maybe-has :
    {A B : Type 0} (P : B → Type 0) (m : Option A) {x : B} {f : A → B}
    → P x
    → ((a : A) → P (f a))
    → P (maybe m x f)
maybe-has P none h k = h
maybe-has P (some a) h k = k a

module _ (N : Table String ℕ) (S : Table ℕ ℕ) (generate_uuid : ℕ → String) where
  -- The numbers of the tracepoints are their places, and no address is given out twice.
  pub record IsKept (r : Registry N S generate_uuid) : Type 0 where
    pub numbered : Numbered 0 r.perf_tracepoints
    pub distinct : Distinct r.perf_tracepoints
    pub fresh : All (λ q. q.address < r.next) r.perf_tracepoints

  create-IsKept :
      (name : String) (r : Registry N S generate_uuid)
      → IsKept r
      → IsKept (create_tracepoint N S generate_uuid name r).1
  unfolding create_tracepoint
  create-IsKept name r k = record {
    numbered = Numbered-snoc 0 r.perf_tracepoints _ k.numbered (omega arith);
    distinct = Distinct-snoc r.perf_tracepoints _ k.distinct k.fresh;
    fresh =
        All-snoc (λ q. q.address < r.next + 1) r.perf_tracepoints _
          (All-below r.next r.perf_tracepoints k.fresh) (omega arith);
  }

  add-IsKept :
      (name : String) (r : Registry N S generate_uuid)
      → IsKept r
      → IsKept (add_tracepoint N S generate_uuid name r).1
  unfolding add_tracepoint
  add-IsKept name r k =
      maybe-has (λ (p : ℕ × Registry N S generate_uuid). IsKept p.1) (N.search r.name_table name)
        (create-IsKept name r k) (λ address. k)

  -- The registry after the removal of a tracepoint that is in the list.
  remove-IsKept :
      (address : ℕ) (tp : Tp) (r : Registry N S generate_uuid)
      → IsKept r
      → find_tp r.perf_tracepoints address ≡ some tp
      → Ensures (remove_tracepoint N S generate_uuid address r) (λ r'.
        IsKept r'
        × (length r.perf_tracepoints ≡ suc (length r'.perf_tracepoints))
        × (find_tp r'.perf_tracepoints address ≡ none)
        × (r'.name_table ≡ r.name_table))
  unfolding remove_tracepoint
  remove-IsKept address tp r k found =
      let left = list_del_tp r.perf_tracepoints address in
      let others = list_del-gone address r.perf_tracepoints k.distinct in
      Ensures-of _ (ap (λ m. m >>= λ tp. some (without N S generate_uuid address r tp)) found) (
        record {
          numbered = renumber-Numbered 0 left;
          distinct =
              Distinct-renumber 0 left (Distinct-list_del address r.perf_tracepoints k.distinct);
          fresh =
              All-renumber (λ a. a < r.next) 0 left
                (All-list_del (λ a. a < r.next) address r.perf_tracepoints k.fresh);
        },
        length-list_del address r.perf_tracepoints tp found ∙ ap suc (sym (length-renumber 0 left)),
        find_tp-gone address (renumber 0 left) (All-renumber (λ a. a ≢ address) 0 left others),
        refl,
      )

  -- Adding a tracepoint keeps the tracepoints numbered by their places and at distinct addresses.
  -- So does removing one that is in the list, which takes it off and no other.
  pub tracepoints-IsKept :
      (name : String) (address : ℕ) (tp : Tp) (r : Registry N S generate_uuid)
      → IsKept r
      → find_tp r.perf_tracepoints address ≡ some tp
      → IsKept (add_tracepoint N S generate_uuid name r).1
        × Ensures (remove_tracepoint N S generate_uuid address r) (λ r'.
          IsKept r'
          × (length r.perf_tracepoints ≡ suc (length r'.perf_tracepoints))
          × (find_tp r'.perf_tracepoints address ≡ none))
  tracepoints-IsKept name address tp r k found = (
    add-IsKept name r k,
    Ensures-mono (remove-IsKept address tp r k found) (λ r' h. (h.0, h.1, h.2)),
  )

  -- A tracepoint that was registered under a name stays in the table of names when it is removed:
  -- adding the name again gives the freed tracepoint and asks the server for nothing, and removing
  -- that one accesses freed memory.
  pub remove_tracepoint-stale :
      (name : String) (address : ℕ) (tp : Tp) (r : Registry N S generate_uuid)
      → IsKept r
      → find_tp r.perf_tracepoints address ≡ some tp
      → N.search r.name_table name ≡ some address
      → Ensures (remove_tracepoint N S generate_uuid address r) (λ r'.
        (add_tracepoint N S generate_uuid name r' ≡ (address, r'))
        × (find_tp r'.perf_tracepoints address ≡ none)
        × (remove_tracepoint N S generate_uuid address r' ≡ none))
  unfolding add_tracepoint remove_tracepoint
  remove_tracepoint-stale name address tp r k found known =
      Ensures-mono (remove-IsKept address tp r k found) (λ r' h. (
        ap (λ m. maybe m (create_tracepoint N S generate_uuid name r') (λ a. (a, r')))
            (ap (λ table. N.search table name) h.3 ∙ known),
        h.2,
        ap (λ m. m >>= λ tp. some (without N S generate_uuid address r' tp)) h.2,
      ))
