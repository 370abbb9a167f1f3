-- ===== src/Server/CpuStats/Sets.antt =====
-- The statistics in the buffer, one entry after the other.
use gputop.Base.{
  ℕ, zero, suc, ◌+◌, ◌*◌, ◌≡◌, refl, sym, ap, ◌∙◌, arith, Option, some, List, [], ◌∷◌, ◌++◌, map,
  length, drop, All, length-append,
}
use gputop.Server.CpuStats.{CpuStat}

-- The statistics in the order in which they are read.
unfoldable pub flat : List (List CpuStat) → List (Option CpuStat)
flat [] = []
flat (stats ∷ rest) = map some stats ++ flat rest

pub length-map-some : (xs : List CpuStat) → length (map some xs) ≡ length xs
length-map-some [] = refl
length-map-some (x ∷ xs) = ap suc (length-map-some xs)

pub assoc : (xs ys zs : List (Option CpuStat)) → (xs ++ ys) ++ zs ≡ xs ++ (ys ++ zs)
assoc [] ys zs = refl
assoc (x ∷ xs) ys zs = ap (λ l. x ∷ l) (assoc xs ys zs)

pub append_nil : (xs : List (Option CpuStat)) → xs ++ [] ≡ xs
append_nil [] = refl
append_nil (x ∷ xs) = ap (λ l. x ∷ l) (append_nil xs)

drop_nil : (k : ℕ) → drop {A = Option CpuStat} k [] ≡ []
drop_nil zero = refl
drop_nil (suc k) = refl

pub drop-drop : (a b : ℕ) (xs : List (Option CpuStat)) → drop b (drop a xs) ≡ drop (a + b) xs
drop-drop zero b xs = ap (λ k. drop k xs) (omega arith)
drop-drop (suc a) b [] = drop_nil b ∙ sym (drop_nil (suc a + b))
drop-drop (suc a) b (x ∷ xs) =
    let e : suc (a + b) ≡ suc a + b = omega arith in drop-drop a b xs ∙ ap (λ k. drop k (x ∷ xs)) e

pub length-flat :
    (n : ℕ) (sets : List (List CpuStat))
    → All (λ set. length set ≡ n) sets
    → length (flat sets) ≡ length sets * n
unfolding flat
length-flat n [] h = omega arith
length-flat n (set ∷ sets) h =
    length-append {0} (map some set) (flat sets)
    ∙ grind (arith, length-map-some set, length-flat n sets h.1, h.0)
