-- ===== src/Metrics/Tree.antt =====
-- A counter that is added under a path is found there, and nowhere else.
use mathlib.Core.Bool.{false≢true}
use gputop.Base.{
  false, Option, none, some, List, [], ◌∷◌, ◌++◌, Bytes, bytes_eq, bytes_eq_iff, arith, refl, ap,
  ◌≡◌, ◌≢◌, if◌then◌else◌, Bool-cases, sym, ◌∙◌, ap₂, inl, inr,
}
use gputop.Metrics.{
  Group, Groups, group, nil, cons, name_of, counters_of, groups_of, counter_group_new, in_child,
  add_along, gen_add_counter, split_path,
}

-- The first child of a name.
pub child : Bytes → Groups → Option Group
child name nil = none
child name (cons g gs) = if bytes_eq (name_of g) name then some g else child name gs

-- The counters of the group that is reached along a path; none if there is no such group.
pub counters_at : List Bytes → Group → List Bytes
counters_at [] g = counters_of g
counters_at (n ∷ ns) g = elim (child n (groups_of g)) [ none ↦ [] | some g' ↦ counters_at ns g' ]

-- A child that was found, or the new group that the source would make.
or_new : Bytes → Option Group → Group
or_new name none = counter_group_new name
or_new name (some g) = g

bytes_ne : (xs ys : Bytes) → xs ≢ ys → bytes_eq xs ys ≡ false
bytes_ne xs ys ne = ground (arith, bytes_eq_iff xs ys)

child-in_child_self :
    (name : Bytes) (f : Group → Group) (gs : Groups)
    → ((g : Group) → name_of (f g) ≡ name_of g)
    → child name (in_child name f gs) ≡ some (f (or_new name (child name gs)))
unfolding child in_child or_new
child-in_child_self name f nil keep =
    rw (keep (counter_group_new name), (bytes_eq_iff name name).1 refl) refl
child-in_child_self name f (cons g gs) keep = elim (Bool-cases (bytes_eq (name_of g) name)) [
  | inl e ↦ rw (e, keep g, e) refl
  | inr ne ↦ rw (ne, ne) (child-in_child_self name f gs keep)
]

child-in_child_ne :
    (name other : Bytes) (f : Group → Group) (gs : Groups)
    → ((g : Group) → name_of (f g) ≡ name_of g)
    → name ≢ other
    → child other (in_child name f gs) ≡ child other gs
unfolding child in_child
child-in_child_ne name other f nil keep ne =
    rw (keep (counter_group_new name), bytes_ne name other ne) refl
child-in_child_ne name other f (cons g gs) keep ne = elim (Bool-cases (bytes_eq (name_of g) name)) [
  | inl e ↦
      let same : name_of g ≡ name = (bytes_eq_iff (name_of g) name).0 e in
      rw (e, keep g, same, bytes_ne name other ne) refl
  | inr no_match ↦ rw (no_match, child-in_child_ne name other f gs keep ne) refl
]

name-add_along : (ns : List Bytes) (k : Bytes) (g : Group) → name_of (add_along ns k g) ≡ name_of g
unfolding add_along
name-add_along [] k (group name counters groups) = refl
name-add_along (n ∷ ns) k (group name counters groups) = refl

counters_at_new : (ns : List Bytes) (name : Bytes) → counters_at ns (counter_group_new name) ≡ []
unfolding counters_at child
counters_at_new [] name = refl
counters_at_new (n ∷ ns) name = refl

counters_at_cons :
    (n : Bytes) (ns : List Bytes) (g : Group)
    → counters_at (n ∷ ns) g ≡ counters_at ns (or_new n (child n (groups_of g)))
unfolding counters_at or_new
counters_at_cons n ns g = by_case (child n (groups_of g))
  where
    by_case :
        (o : Option Group)
        → (elim o [ none ↦ [] | some g' ↦ counters_at ns g' ]) ≡ counters_at ns (or_new n o)
    by_case none = sym (counters_at_new ns n)
    by_case (some g') = refl

counters_at-add_along_self :
    (ns : List Bytes) (k : Bytes) (g : Group)
    → counters_at ns (add_along ns k g) ≡ counters_at ns g ++ (k ∷ [])
unfolding add_along or_new
counters_at-add_along_self [] k (group name counters groups) = unfold counters_at in refl
counters_at-add_along_self (n ∷ ns) k (group name counters groups) =
    counters_at_cons n ns (add_along (n ∷ ns) k (group name counters groups))
    ∙ rw (child-in_child_self n (add_along ns k) groups (name-add_along ns k)) (
        counters_at-add_along_self ns k (or_new n (child n groups))
        ∙ ap (λ t. t ++ (k ∷ [])) (sym (counters_at_cons n ns (group name counters groups))))

counters_at-add_along_ne :
    (ns ms : List Bytes) (k : Bytes) (g : Group)
    → ns ≢ ms
    → counters_at ms (add_along ns k g) ≡ counters_at ms g
unfolding add_along or_new
counters_at-add_along_ne [] [] k g ne = absurd (ne refl)
counters_at-add_along_ne [] (m ∷ ms) k (group name counters groups) ne = unfold counters_at in refl
counters_at-add_along_ne (n ∷ ns) [] k (group name counters groups) ne = unfold counters_at in refl
counters_at-add_along_ne (n ∷ ns) (m ∷ ms) k (group name counters groups) ne =
    elim (Bool-cases (bytes_eq n m)) [
      | inl same ↦
          let e : n ≡ m = (bytes_eq_iff n m).0 same in
          counters_at_cons m ms (add_along (n ∷ ns) k (group name counters groups))
          ∙ rw (← e, child-in_child_self n (add_along ns k) groups (name-add_along ns k))
              (counters_at-add_along_ne ns ms k (or_new n (child n groups)) (λ h. ne (ap₂ ◌∷◌ e h))
                ∙ sym (counters_at_cons n ms (group name counters groups)))
      | inr differ ↦
          counters_at_cons m ms (add_along (n ∷ ns) k (group name counters groups))
          ∙ rw
              (child-in_child_ne n m (add_along ns k) groups (name-add_along ns k)
                (λ e. false≢true (sym differ ∙ (bytes_eq_iff n m).1 e)))
              (sym (counters_at_cons m ms (group name counters groups)))
    ]

-- When `gputop_gen_add_counter` succeeds, the counter is the last one of the group that its path
-- names, groups that were missing are made, and what is found along every other path of names is
-- as it was.
pub gen_add_counter_lem :
    (root root' : Group) (counter path : Bytes)
    → gen_add_counter root counter path ≡ some root'
    → (counters_at (split_path [] path) root'
        ≡ counters_at (split_path [] path) root ++ (counter ∷ []))
      × ((names : List Bytes)
          → split_path [] path ≢ names
          → counters_at names root' ≡ counters_at names root)
unfolding gen_add_counter
gen_add_counter_lem root root' counter [] h = cc
gen_add_counter_lem root root' counter (c ∷ cs) h =
    let names = split_path [] (c ∷ cs) in
    let e : add_along names counter root ≡ root' = ground arith in
    rw (← e) (
      counters_at-add_along_self names counter root,
      λ ms ne. counters_at-add_along_ne names ms counter root ne,
    )
