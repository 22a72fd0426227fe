-- ===== src/Base/Div.antt =====
-- Division of native numbers.
use Prim.Native.Nat.{ℕ, zero, suc, ◌/◌, ◌≤◌}
use native.Mathlib.Omega.{arith}
use native.Mathlib.Nat.{div-zero, div-mul-le_self, le-div_iff_mul-le}

pub div_mono : (a b k : ℕ) → a ≤ b → a / k ≤ b / k
div_mono a b zero h = omega (arith, div-zero a, div-zero b)
div_mono a b (suc k) h =
    (le-div_iff_mul-le (omega arith)).1 (omega (arith, div-mul-le_self a (suc k)))
