-- ===== src/Vamm/Fees.antt =====
-- query_calc_fee of query.rs.
use native.Mathlib.Nat.{le-div_iff_mul-le, div-mul-le_self, mul-div_left}
use mrgnd_perpetuals.Base.{ℕ, ◌+◌, ◌*◌, ◌/◌, ◌^◌, ◌≤◌, ◌<◌, ◌≡◌, ok, some, arith}
use mrgnd_perpetuals.Base.Division.{le-mul_of_le}
use mrgnd_perpetuals.Cosmwasm.{Uint128, IsUint128, eq-documented, documented}
use mrgnd_perpetuals.Perp.Vamm.{CalcFeeResponse}
use mrgnd_perpetuals.Vamm.State.{Storage, Config}
use mrgnd_perpetuals.Vamm.Query.{query_calc_fee}

-- The two shares of an amount.
abbrev pub fees_of : Config → ℕ → CalcFeeResponse
fees_of c amount = record {
  toll_fee = amount * c.toll_ratio / c.decimals;
  spread_fee = amount * c.spread_ratio / c.decimals;
}

-- Shares of ratios that make up no more than the whole.
shares-le :
    (amount toll spread decimals : ℕ)
    → 0 < decimals
    → toll + spread ≤ decimals
    → amount * toll / decimals + amount * spread / decimals ≤ amount
shares-le amount toll spread decimals pos whole =
    let x = amount * toll / decimals in
    let y = amount * spread / decimals in
    let shares : (x + y) * decimals ≤ (toll + spread) * amount = omega (
      arith,
      div-mul-le_self (amount * toll) decimals,
      div-mul-le_self (amount * spread) decimals,
    ) in
    let together : (x + y) * decimals ≤ amount * decimals =
      omega
        (arith, le-mul_of_le ((x + y) * decimals) (toll + spread) decimals amount whole shares) in
    let least : x + y ≤ amount * decimals / decimals = (le-div_iff_mul-le pos).1 together in
    rw (mul-div_left amount pos) at least

module _ (s : Storage) {c : Config} (ec : s.config ≡ some c) (amount : ℕ) (pos : 0 < c.decimals)
    (toll_fits : amount * c.toll_ratio < 2 ^ 128)
    (spread_fits : amount * c.spread_ratio < 2 ^ 128) where
  fees-documented : query_calc_fee documented s amount ≡ ok (fees_of c amount)
  unfolding query_calc_fee
  fees-documented = rw ec (ground arith)

module _ (u : Uint128) (laws : IsUint128 u) (s : Storage) {c : Config} (ec : s.config ≡ some c)
    (amount : ℕ) (pos : 0 < c.decimals) (toll_fits : amount * c.toll_ratio < 2 ^ 128)
    (spread_fits : amount * c.spread_ratio < 2 ^ 128) where
  -- With a stored configuration of positive decimals whose two ratios make up no more than the
  -- whole, and products that fit 128 bits, query_calc_fee succeeds with each share of the
  -- amount, rounded down, and the two fees together are no more than the amount.
  pub query_calc_fee-le :
      c.toll_ratio + c.spread_ratio ≤ c.decimals
      → (query_calc_fee u s amount ≡ ok (fees_of c amount))
        × ((fees_of c amount).toll_fee + (fees_of c amount).spread_fee ≤ amount)
  query_calc_fee-le whole = (
    rw (eq-documented u laws) (fees-documented s ec amount pos toll_fits spread_fits),
    shares-le amount c.toll_ratio c.spread_ratio c.decimals pos whole,
  )
