-- ===== src/Base/Bits.antt =====
-- `|` of disjoint bit fields is a sum.
use Prim.Native.Nat.{
  ℕ, zero, suc, ◌+◌, ◌*◌, ◌/◌, ◌^◌, ◌≤◌, ◌<◌, max, bit_or, digits, bit_or-bitwise,
}
use mathlib.Core.Path.{◌≡◌, refl, ap}
use native.Mathlib.Nat.{pow-suc, le_refl}
use native.Mathlib.Omega.{arith}

-- A factor 2 of the shift, taken out.
shift_once : (q k : ℕ) → q * 2 ^ suc k ≡ 2 * (q * 2 ^ k)
shift_once q k = omega (arith, ap (λ (t : ℕ). q * t) (pow-suc 2 k))

-- The recursion on digits that the operation stands for, with any fuel that covers `r`.
digits_high :
    (n k r q t : ℕ) → r ≤ n → r < 2 ^ k → t ≡ q * 2 ^ k → digits (λ y. y) max n r t ≡ q * 2 ^ k + r
digits_high zero k zero q t le fits e = omega arith
digits_high zero k (suc r) q t le fits e = absurd (omega arith)
digits_high (suc n) k zero q t le fits e = omega arith
digits_high (suc n) zero (suc r) q t le fits e = absurd (omega arith)
digits_high (suc n) (suc k) (suc r) q t le fits e = ground (
  arith,
  pow-suc 2 k,
  shift_once q k,
  digits_high n k (suc r / 2) q (t / 2) (omega arith) (omega (arith, pow-suc 2 k))
      (omega (arith, shift_once q k)),
)

-- A low field `r` of `k` bits beside a field shifted above it.
pub bit_or_high : (k r q : ℕ) → r < 2 ^ k → bit_or r (q * 2 ^ k) ≡ q * 2 ^ k + r
bit_or_high k r q fits =
    omega
      (arith, bit_or-bitwise r (q * 2 ^ k), digits_high r k r q (q * 2 ^ k) (le_refl r) fits refl)
