-- ===== src/Prelude/Words.antt =====
-- Unsigned 64-bit arithmetic, wrapping as a release build does, and `div_ceil`.
use Prim.Native.Nat.{ℕ, suc, ◌+◌, ◌-◌, ◌*◌, ◌/◌, ◌%◌, ◌^◌, ◌<◌, ◌≤◌}
use mathlib.Core.Path.{◌≡◌}
use mathlib.Core.Logic.{inl, inr}
use native.Mathlib.Omega.{arith}
use native.Mathlib.Nat.{div-add-mod', mul-le-mul_right, suc-mul, mod-lt}
use qedl_rs.Prelude.Tests.{◌==◌, if◌then◌else◌, le_or_gt}

unfoldable pub add64 : ℕ → ℕ → ℕ
add64 a b = (a + b) % 2 ^ 64

unfoldable pub sub64 : ℕ → ℕ → ℕ
sub64 a b = (a + 2 ^ 64 - b) % 2 ^ 64

unfoldable pub mul64 : ℕ → ℕ → ℕ
mul64 a b = (a * b) % 2 ^ 64

-- Without the panic on a zero divisor, which its callers test.
unfoldable pub div_ceil : ℕ → ℕ → ℕ
div_ceil a b = if a % b == 0 then a / b else suc (a / b)

pub add64_lem : (a b : ℕ) → a + b < 2 ^ 64 → add64 a b ≡ a + b
unfolding add64
add64_lem a b h = omega arith

pub sub64_lem : (a b : ℕ) → b ≤ a → a < 2 ^ 64 → sub64 a b ≡ a - b
unfolding sub64
sub64_lem a b h k = omega arith

pub mul64_lem : (a b : ℕ) → a * b < 2 ^ 64 → mul64 a b ≡ a * b
unfolding mul64
mul64_lem a b h = omega arith

suc-div-mul-le : (a b s : ℕ) → 0 < a % s → a ≤ b * s → suc (a / s) * s ≤ b * s
suc-div-mul-le a b s r h = mul-le-mul_right s (elim (le_or_gt b (a / s)) [
  | inl over ↦ absurd (omega (arith, mul-le-mul_right s over, div-add-mod' a s))
  | inr under ↦ omega arith
])

-- Rounded up, a size stays within any whole number of units that holds it.
pub div_ceil-mul-le : (a b s : ℕ) → a ≤ b * s → div_ceil a s * s ≤ b * s
unfolding div_ceil
div_ceil-mul-le a b s h = ground (arith, suc-div-mul-le a b s, div-add-mod' a s)

pub le-div_ceil-mul : (a s : ℕ) → 0 < s → a ≤ div_ceil a s * s
unfolding div_ceil
le-div_ceil-mul a s h = ground (arith, div-add-mod' a s, suc-mul (a / s) s, mod-lt a h)

pub div_ceil-mul-lt : (a s : ℕ) → 0 < s → div_ceil a s * s < a + s
unfolding div_ceil
div_ceil-mul-lt a s h = ground (arith, div-add-mod' a s, suc-mul (a / s) s, mod-lt a h)
