-- ===== src/Base/Memory.antt =====
-- Blocks of bytes: bounds-checked reads and writes, and `realloc`.
use Prim.Native.Nat.{ℕ, zero, suc, ◌+◌, ◌-◌, ◌≤◌, ◌<◌}
use mathlib.Core.Path.{◌≡◌, refl, ap, ◌∙◌}
use mathlib.Core.List.{List, [], ◌∷◌, ◌++◌}
use mathlib.Core.Option.{Option, none, some}
use native.Mathlib.Omega.{arith}
use gputop.Base.Tests.{leb, if◌then◌else◌}
use gputop.Base.Lists.{
  length, get_or, take, drop, replicate, length-append, length-take, length-drop, length-replicate,
}

abbrev pub Bytes : Type 0
Bytes = List ℕ

-- The block with `bytes` laid over it from `off` on.
abbrev pub splice : Bytes → ℕ → Bytes → Bytes
splice mem off bytes = take off mem ++ (bytes ++ drop (off + length bytes) mem)

-- `memcpy(mem + off, bytes, length bytes)`; `none` is a write out of bounds.
unfoldable pub write : Bytes → ℕ → Bytes → Option Bytes
write mem off bytes =
    if leb (off + length bytes) (length mem) then some (splice mem off bytes) else none

-- The `n` bytes at `off`; `none` is a read out of bounds.
unfoldable pub read : Bytes → ℕ → ℕ → Option Bytes
read mem off n = if leb (off + n) (length mem) then some (take n (drop off mem)) else none

-- `realloc`; the bytes that it adds hold `fill`, which may be anything.
abbrev pub resize : ℕ → ℕ → Bytes → Bytes
resize fill n mem = take n mem ++ replicate (n - length mem) fill

pub write_lem :
    (mem : Bytes) (off : ℕ) (bytes : Bytes)
    → off + length bytes ≤ length mem
    → write mem off bytes ≡ some (splice mem off bytes)
unfolding write
write_lem mem off bytes h = ground arith

pub read_lem :
    (mem : Bytes) (off n : ℕ) → off + n ≤ length mem → read mem off n ≡ some (take n (drop off mem))
unfolding read
read_lem mem off n h = ground arith

module _ {ℓ} {A : Type ℓ} where
  pub take-append_le : (n : ℕ) (xs ys : List A) → n ≤ length xs → take n (xs ++ ys) ≡ take n xs
  take-append_le zero xs ys h = refl
  take-append_le (suc n) [] ys h = absurd (omega arith)
  take-append_le (suc n) (x ∷ xs) ys h = ap (λ t. x ∷ t) (take-append_le n xs ys (omega arith))

  pub take-append_ge :
      (n k : ℕ) (xs ys : List A) → n ≡ length xs + k → take n (xs ++ ys) ≡ xs ++ take k ys
  take-append_ge n k [] ys e = let e' : n ≡ k = omega arith in rw e' refl
  take-append_ge zero k (x ∷ xs) ys e = absurd (omega arith)
  take-append_ge (suc n) k (x ∷ xs) ys e = ap (λ t. x ∷ t) (take-append_ge n k xs ys (omega arith))

  pub drop-append_ge :
      (n k : ℕ) (xs ys : List A) → n ≡ length xs + k → drop n (xs ++ ys) ≡ drop k ys
  drop-append_ge n k [] ys e = let e' : n ≡ k = omega arith in rw e' refl
  drop-append_ge zero k (x ∷ xs) ys e = absurd (omega arith)
  drop-append_ge (suc n) k (x ∷ xs) ys e = drop-append_ge n k xs ys (omega arith)

  pub take-take : (n m : ℕ) (xs : List A) → n ≤ m → take n (take m xs) ≡ take n xs
  take-take zero m xs h = refl
  take-take (suc n) zero xs h = absurd (omega arith)
  take-take (suc n) (suc m) [] h = refl
  take-take (suc n) (suc m) (x ∷ xs) h = ap (λ t. x ∷ t) (take-take n m xs (omega arith))

  pub take_all : (n : ℕ) (xs : List A) → length xs ≤ n → take n xs ≡ xs
  take_all zero [] h = refl
  take_all zero (x ∷ xs) h = absurd (omega arith)
  take_all (suc n) [] h = refl
  take_all (suc n) (x ∷ xs) h = ap (λ t. x ∷ t) (take_all n xs (omega arith))

  pub get_or-append_ge :
      (n k : ℕ) (xs ys : List A) (d : A) → n ≡ length xs + k → get_or (xs ++ ys) n d ≡ get_or ys k d
  get_or-append_ge n k [] ys d e = let e' : n ≡ k = omega arith in rw e' refl
  get_or-append_ge zero k (x ∷ xs) ys d e = absurd (omega arith)
  get_or-append_ge (suc n) k (x ∷ xs) ys d e = get_or-append_ge n k xs ys d (omega arith)

  pub get_or-append_lt :
      (n : ℕ) (xs ys : List A) (d : A) → n < length xs → get_or (xs ++ ys) n d ≡ get_or xs n d
  get_or-append_lt n [] ys d h = absurd (omega arith)
  get_or-append_lt zero (x ∷ xs) ys d h = refl
  get_or-append_lt (suc n) (x ∷ xs) ys d h = get_or-append_lt n xs ys d (omega arith)

  pub take-suc :
      (n : ℕ) (xs : List A) (d : A)
      → n < length xs
      → take (suc n) xs ≡ take n xs ++ (get_or xs n d ∷ [])
  take-suc n [] d h = absurd (omega arith)
  take-suc zero (x ∷ xs) d h = refl
  take-suc (suc n) (x ∷ xs) d h = ap (λ t. x ∷ t) (take-suc n xs d (omega arith))

module _ (mem : Bytes) (off : ℕ) (bytes : Bytes) (fits : off + length bytes ≤ length mem) where
  pub length-splice : length (splice mem off bytes) ≡ length mem
  length-splice = omega (
    arith,
    length-append {0} (take off mem) (bytes ++ drop (off + length bytes) mem),
    length-append {0} bytes (drop (off + length bytes) mem),
    length-take {0} off mem,
    length-drop {0} (off + length bytes) mem,
  )

  -- What lies before the bytes stays.
  pub take-splice_before : (k : ℕ) → k ≤ off → take k (splice mem off bytes) ≡ take k mem
  take-splice_before k h =
      take-append_le k (take off mem) _ (omega (arith, length-take {0} off mem))
      ∙ take-take k off mem h

  -- Up to the end of the bytes.
  pub take-splice_end :
      (k : ℕ) → k ≡ off + length bytes → take k (splice mem off bytes) ≡ take off mem ++ bytes
  take-splice_end k e =
      take-append_ge k (length bytes) (take off mem) _ (omega (arith, e, length-take {0} off mem))
      ∙ ap (λ t. take off mem ++ t)
          (take-append_le (length bytes) bytes _ (omega arith)
            ∙ take_all (length bytes) bytes (omega arith))

  -- From the start of the bytes on.
  pub drop-splice : drop off (splice mem off bytes) ≡ bytes ++ drop (off + length bytes) mem
  drop-splice = drop-append_ge off 0 (take off mem) _ (omega (arith, length-take {0} off mem))

  pub get_or-splice :
      (i j d : ℕ)
      → i ≡ off + j
      → j < length bytes
      → get_or (splice mem off bytes) i d ≡ get_or bytes j d
  get_or-splice i j d e h =
      get_or-append_ge i j (take off mem) _ d (omega (arith, e, length-take {0} off mem))
      ∙ get_or-append_lt j bytes _ d h

pub length-resize : (fill n : ℕ) (mem : Bytes) → length mem ≤ n → length (resize fill n mem) ≡ n
length-resize fill n mem h = omega (
  arith,
  length-append {0} (take n mem) (replicate (n - length mem) fill),
  length-take {0} n mem,
  length-replicate {0} (n - length mem) fill,
)

pub take-resize :
    (fill n k : ℕ) (mem : Bytes)
    → length mem ≤ n
    → k ≤ length mem
    → take k (resize fill n mem) ≡ take k mem
take-resize fill n k mem h q =
    take-append_le k (take n mem) _ (omega (arith, length-take {0} n mem))
    ∙ take-take k n mem (omega arith)

module _ {ℓ} {A : Type ℓ} where
  pub drop-take : (k n m : ℕ) (xs : List A) → n ≡ k + m → drop k (take n xs) ≡ take m (drop k xs)
  drop-take zero n m xs e = let e' : n ≡ m = omega arith in rw e' refl
  drop-take (suc k) zero m xs e = absurd (omega arith)
  drop-take (suc k) (suc n) zero [] e = refl
  drop-take (suc k) (suc n) (suc m) [] e = refl
  drop-take (suc k) (suc n) m (x ∷ xs) e = drop-take k n m xs (omega arith)

  pub get_or-take : (n i : ℕ) (xs : List A) (d : A) → i < n → get_or (take n xs) i d ≡ get_or xs i d
  get_or-take zero i xs d h = absurd (omega arith)
  get_or-take (suc n) i [] d h = refl
  get_or-take (suc n) zero (x ∷ xs) d h = refl
  get_or-take (suc n) (suc i) (x ∷ xs) d h = get_or-take n i xs d (omega arith)

  pub get_or-drop :
      (k i j : ℕ) (xs : List A) (d : A) → j ≡ k + i → get_or (drop k xs) i d ≡ get_or xs j d
  get_or-drop zero i j xs d e = let e' : j ≡ i = omega arith in rw e' refl
  get_or-drop (suc k) i zero xs d e = absurd (omega arith)
  get_or-drop (suc k) i (suc j) [] d e = refl
  get_or-drop (suc k) i (suc j) (x ∷ xs) d e = get_or-drop k i j xs d (omega arith)

pub get_or-resize :
    (fill n i d : ℕ) (mem : Bytes)
    → length mem ≤ n
    → i < length mem
    → get_or (resize fill n mem) i d ≡ get_or mem i d
get_or-resize fill n i d mem h q =
    get_or-append_lt i (take n mem) _ d (omega (arith, length-take {0} n mem))
    ∙ get_or-take n i mem d (omega arith)

pub read_fault : (mem : Bytes) (off n : ℕ) → length mem < off + n → read mem off n ≡ none
unfolding read
read_fault mem off n h = ground arith
