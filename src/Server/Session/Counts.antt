-- ===== src/Server/Session/Counts.antt =====
-- How often a stream stands in a list.
use gputop.Base.{ℕ, ◌+◌, ◌<◌, ◌≡◌, refl, arith, List, [], ◌∷◌, ◌++◌, ◌==◌, if◌then◌else◌}
use gputop.Server.Session.{remove}

abbrev pub here : ℕ → ℕ → ℕ
here k j = if j == k then 1 else 0

abbrev pub count : ℕ → List ℕ → ℕ
count j [] = 0
count j (k ∷ ks) = here k j + count j ks

pub count-append : (j k : ℕ) (ks : List ℕ) → count j (ks ++ (k ∷ [])) ≡ count j ks + here k j
count-append j k [] = omega arith
count-append j k (l ∷ ks) = omega (arith, count-append j k ks)

pub count-remove :
    (j k : ℕ) (ks : List ℕ) → 0 < count k ks → here k j + count j (remove k ks) ≡ count j ks
unfolding remove
count-remove j k [] h = absurd (omega arith)
count-remove j k (l ∷ ks) h = ground (arith, count-remove j k ks)

pub count-remove_none : (k : ℕ) (ks : List ℕ) → count k ks ≡ 0 → remove k ks ≡ ks
unfolding remove
count-remove_none k [] h = refl
count-remove_none k (l ∷ ks) h = ground (arith, count-remove_none k ks)
