-- ===== src/Base/Division.antt =====
-- Division rounded up, and how it bounds a product.
use Prim.Native.Nat.{ℕ, ◌+◌, ◌*◌, ◌/◌, ◌%◌, ◌≤◌, ◌<◌}
use mathlib.Core.Path.{◌≡◌}
use native.Mathlib.Nat.{div-add-mod, mod-lt}
use mathlib.Core.Logic.{◌⊎◌, inl, inr}
use native.Mathlib.Omega.{arith}
use mrgnd_perpetuals.Base.Tests.{◌==◌, if◌then◌else◌}

unfoldable pub ceil_div : ℕ → ℕ → ℕ
ceil_div n y = if n % y == 0 then n / y else n / y + 1

-- The two cases of the rounding.
pub ceil_div-cases :
    (n y : ℕ) → ((n % y ≡ 0) × (ceil_div n y ≡ n / y)) ⊎ ((0 < n % y) × (ceil_div n y ≡ n / y + 1))
unfolding ceil_div
ceil_div-cases n y = ground arith

module _ (n y : ℕ) (pos : 0 < y) where
  pub le-mul-ceil_div : n ≤ y * ceil_div n y
  le-mul-ceil_div = elim (ceil_div-cases n y) [
    | inl (r, e) ↦ rw e (omega (arith, div-add-mod n y))
    | inr (r, e) ↦ rw e (omega (arith, div-add-mod n y, mod-lt n pos))
  ]

  pub mul-ceil_div-lt : y * ceil_div n y < n + y
  mul-ceil_div-lt = elim (ceil_div-cases n y) [
    | inl (r, e) ↦ rw e (omega (arith, div-add-mod n y))
    | inr (r, e) ↦ rw e (omega (arith, div-add-mod n y))
  ]

  -- The rounded quotient is the least factor that reaches `n`.
  pub ceil_div-le : (m : ℕ) → n ≤ y * m → ceil_div n y ≤ m
  ceil_div-le m h = grind (arith, mul-ceil_div-lt)

  pub lt-ceil_div : (m : ℕ) → y * m < n → m < ceil_div n y
  lt-ceil_div m h = grind (arith, le-mul-ceil_div)

  pub le-mul_of_ceil : (m : ℕ) → ceil_div n y ≤ m → n ≤ y * m
  le-mul_of_ceil m h = grind (arith, le-mul-ceil_div)

  pub div_mono : (m : ℕ) → n ≤ m → n / y ≤ m / y
  div_mono m h = grind (arith, div-add-mod n y, div-add-mod m y, mod-lt m pos)

pub le-mul_of_le : (n x y z : ℕ) → x ≤ y → n ≤ x * z → n ≤ y * z
le-mul_of_le n x y z h below = grind arith
