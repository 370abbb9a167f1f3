-- ===== src/Base/Loops.antt =====
-- Counted loops.
use Prim.Native.Nat.{ℕ, zero, suc, ◌+◌}

-- `for (k = lo; k < lo + rounds; k++) acc = step k acc`.
unfoldable pub counted {ℓ} : {S : Type ℓ} (rounds lo : ℕ) (step : ℕ → S → S) → S → S
counted zero lo step acc = acc
counted (suc rounds) lo step acc = counted rounds (lo + 1) step (step lo acc)
