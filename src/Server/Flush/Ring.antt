-- ===== src/Server/Flush/Ring.antt =====
-- The bytes of a ring between two positions, and the arithmetic of positions.
use gputop.Base.{
  ℕ, zero, suc, ◌+◌, ◌-◌, ◌*◌, ◌/◌, ◌%◌, ◌^◌, ◌≤◌, ◌<◌, ◌≡◌, ◌⊎◌, inl, inr, refl, sym, ap, ap₂, ◌∙◌,
  arith, List, [], ◌∷◌, ◌++◌, length, take, drop, get_or, u64, sub64,
}
use native.Mathlib.Nat.{
  mod_self, suc-mod, mod-lt, mod-eq_of_lt, mod-add-mod, add-mul-mod_self_right,
}
use gputop.Server.Flush.{taken}

-- The bytes from a position on, in the order in which the kernel wrote them.
unfoldable pub ring : List ℕ → ℕ → ℕ → ℕ → List ℕ
ring buffer size t zero = []
ring buffer size t (suc n) = get_or buffer (t % size) 0 ∷ ring buffer size (suc t) n

-- Two sums that differ by multiples of the size.
sums_lem :
    (size a b u v : ℕ)
    → u + size * a ≡ v + size * b
    → u < 2 * size
    → v < size
    → (u ≡ v) ⊎ (u ≡ v + size)
sums_lem size zero zero u v e h k = inl (grind arith)
sums_lem size zero (suc zero) u v e h k = inr (grind arith)
sums_lem size zero (suc (suc b)) u v e h k = absurd (grind arith)
sums_lem size (suc a) zero u v e h k = absurd (grind arith)
sums_lem size (suc a) (suc b) u v e h k = sums_lem size a b u v (grind arith) h k

pub mod_sum :
    (size x t h c : ℕ)
    → 0 < size
    → x + t ≡ h + c * size
    → (x % size + t % size ≡ h % size) ⊎ (x % size + t % size ≡ h % size + size)
mod_sum size x t h c pos e =
    sums_lem size (x / size + t / size) (h / size + c) (x % size + t % size) (h % size)
      (grind arith) (grind arith) (grind arith)

-- A size that divides 2^64, as a power of two does.
pub record IsSize (size : ℕ) : Type 0 where
  pub positive : 0 < size
  pub factor : ℕ
  pub divides : 2 ^ 64 ≡ factor * size

pub u64-mod : (size x : ℕ) → IsSize size → u64 x % size ≡ x % size
u64-mod size x v =
    let e : x ≡ u64 x + x / 2 ^ 64 * v.factor * size = grind (arith, v.divides) in
    sym (ap (λ y. y % size) e ∙ add-mul-mod_self_right (u64 x) (x / 2 ^ 64 * v.factor) size)

-- What is taken between two positions, by where they stand in the ring.
pub record IsDistance (size h t : ℕ) : Type 0 where
  pub less : taken h t size < size
  pub wrapped : h % size < t % size → taken h t size ≡ h % size + size - t % size
  pub straight : t % size ≤ h % size → taken h t size ≡ h % size - t % size

pub taken-IsDistance : (size h t : ℕ) → IsSize size → h < 2 ^ 64 → t < 2 ^ 64 → IsDistance size h t
unfolding taken
taken-IsDistance size h t v hh ht =
    let x = h + 2 ^ 64 - t in
    let e = u64-mod size x v in
    let s = mod_sum size x t h v.factor v.positive (omega (arith, v.divides)) in
    let lt = mod-lt (h % 2 ^ 64 + 2 ^ 64 - t) v.positive in
    record {
      less = mod-lt (sub64 h t) v.positive;
      wrapped = λ k. ground (arith, s, e);
      straight = λ k. ground (arith, s, e, mod-lt x v.positive);
    }

-- A position that moves on inside the ring, and one that comes to its end.
pub position_inside :
    (size t n : ℕ) → IsSize size → t % size + n < size → u64 (t + n) % size ≡ t % size + n
position_inside size t n v h = u64-mod size (t + n) v ∙ sym (mod-add-mod t size n) ∙ mod-eq_of_lt h

pub position_end : (size t n : ℕ) → IsSize size → t % size + n ≡ size → u64 (t + n) % size ≡ 0
position_end size t n v h =
    u64-mod size (t + n) v ∙ sym (mod-add-mod t size n) ∙ ap (λ x. x % size) h ∙ mod_self size

-- The bytes depend on the place in the ring only.
pub ring_mod :
    (buffer : List ℕ) (size t u n : ℕ)
    → t % size ≡ u % size
    → ring buffer size t n ≡ ring buffer size u n
unfolding ring
ring_mod buffer size t u zero e = refl
ring_mod buffer size t u (suc n) e = ap₂ ◌∷◌ (ap (λ p. get_or buffer p 0) e) (
    ring_mod buffer size (suc t) (suc u) n
      (suc-mod t size ∙ ap (λ x. suc x % size) e ∙ sym (suc-mod u size)))

pub ring_add :
    (buffer : List ℕ) (size t a b : ℕ)
    → ring buffer size t (a + b) ≡ ring buffer size t a ++ ring buffer size (t + a) b
unfolding ring
ring_add buffer size t zero b =
    let e : zero + b ≡ b = omega arith in
    let e' : t ≡ t + zero = omega arith in
    ap (ring buffer size t) e ∙ ap (λ u. ring buffer size u b) e'
ring_add buffer size t (suc a) b =
    let e : suc a + b ≡ suc (a + b) = omega arith in
    let e' : suc t + a ≡ t + suc a = omega arith in
    ap (ring buffer size t) e
    ∙ ap (λ bytes. get_or buffer (t % size) 0 ∷ bytes)
        (ring_add buffer size (suc t) a b
          ∙ ap (λ u. ring buffer size (suc t) a ++ ring buffer size u b) e')

take-drop :
    (buffer : List ℕ) (p n : ℕ)
    → p < length buffer
    → take (suc n) (drop p buffer) ≡ get_or buffer p 0 ∷ take n (drop (suc p) buffer)
take-drop [] p n h = absurd (omega arith)
take-drop (x ∷ xs) zero n h = refl
take-drop (x ∷ xs) (suc p) n h = take-drop xs p n (omega arith)

-- A copy that stays inside the ring.
pub copy_ring :
    (buffer : List ℕ) (size t n : ℕ)
    → 0 < size
    → length buffer ≡ size
    → t % size + n ≤ size
    → take n (drop (t % size) buffer) ≡ ring buffer size t n
unfolding ring
copy_ring buffer size t zero pos e h = refl
copy_ring buffer size t (suc zero) pos e h = take-drop buffer (t % size) 0 (omega arith)
copy_ring buffer size t (suc (suc n)) pos e h =
    let next : suc t % size ≡ suc (t % size) = suc-mod t size ∙ mod-eq_of_lt (omega arith) in
    take-drop buffer (t % size) (suc n) (omega arith)
    ∙ ap (λ b. get_or buffer (t % size) 0 ∷ b)
        (ap (λ p. take (suc n) (drop p buffer)) (sym next)
          ∙ copy_ring buffer size (suc t) (suc n) pos e (omega (arith, next)))
