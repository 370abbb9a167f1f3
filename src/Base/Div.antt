-- ===== src/Base/Div.antt =====
-- Division by a variable: order and sums.
use Prim.Native.Nat.{ℕ, zero, suc, ◌+◌, ◌/◌, ◌≤◌, ◌<◌}
use native.Mathlib.Nat.{le_trans, le-div_iff_mul-le, div-mul-le_self, lt-div-mul-add}
use native.Mathlib.Decide.{dec_le}
use native.Mathlib.Omega.{arith}

pub div_mono : (a b f : ℕ) → a ≤ b → a / f ≤ b / f
div_mono a b zero h = omega arith
div_mono a b (suc f) h =
    (le-div_iff_mul-le (omega arith)).1 (le_trans (div-mul-le_self a (suc f)) h)

-- The integer part of a sum exceeds the sum of the parts by at most 1.
pub div-add_bounds :
    (a b f : ℕ) → 0 < f → (a / f + b / f ≤ (a + b) / f) × ((a + b) / f ≤ a / f + b / f + 1)
div-add_bounds a b f h = (
  (le-div_iff_mul-le h).1 (omega (arith, div-mul-le_self a f, div-mul-le_self b f)),
  elim (dec_le (a / f + b / f + 2) ((a + b) / f)) [
    | yes p ↦ absurd (
        omega (
          arith,
          (le-div_iff_mul-le {x = a / f + b / f + 2} {y = a + b} h).0 p,
          lt-div-mul-add {a = a} h,
          lt-div-mul-add {a = b} h,
        ))
    | no p ↦ omega arith
  ],
)
