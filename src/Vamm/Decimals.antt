-- ===== src/Vamm/Decimals.antt =====
-- contracts/margined_vamm/src/decimals.rs
use mrgnd_perpetuals.Base.{ℕ, ◌>>=◌, unwrap}
use mrgnd_perpetuals.Cosmwasm.{StdResult, Uint128}

-- The remainder of `a`, scaled by the hardcoded nine decimals, by `b`.
unfoldable pub modulo : Uint128 → ℕ → ℕ → StdResult ℕ
modulo u a b = do
  a_decimals ← unwrap (u.checked_mul a 1_000_000_000)
  integral ← u.div a_decimals b
  product ← u.mul b integral
  u.sub a_decimals product
