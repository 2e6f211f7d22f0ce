-- ===== src/Vamm/Query.antt =====
-- contracts/margined_vamm/src/query.rs: the queries.
use mrgnd_perpetuals.Base.{ℕ, zero, suc, ◌||◌, ok, ◌>>=◌, unwrap, u64_sub, leb, ◌==◌, if◌then◌else◌}
use mrgnd_perpetuals.Cosmwasm.{StdResult, Uint128, Api, Env}
use mrgnd_perpetuals.Perp.Vamm.{Direction, ConfigResponse, StateResponse, CalcFeeResponse}
use mrgnd_perpetuals.Vamm.State.{
  Config, ReserveSnapshot, Storage, read_config, read_state, read_reserve_snapshot,
  read_reserve_snapshot_counter,
}
use mrgnd_perpetuals.Vamm.Handle.{get_output_price_with_reserves}

unfoldable pub query_config : Storage → StdResult ConfigResponse
unfolding read_config
query_config s = do
  config ← read_config s
  ok (record {
    owner = config.owner;
    quote_asset = config.quote_asset;
    base_asset = config.base_asset;
    toll_ratio = config.toll_ratio;
    spread_ratio = config.spread_ratio;
    decimals = config.decimals;
  })

unfoldable pub query_state : Storage → StdResult StateResponse
unfolding read_state
query_state s = do
  state ← read_state s
  ok (record {
    quote_asset_reserve = state.quote_asset_reserve;
    base_asset_reserve = state.base_asset_reserve;
    funding_rate = state.funding_rate;
    funding_period = state.funding_period;
  })

unfoldable pub query_output_price : Uint128 → Storage → Direction → ℕ → StdResult ℕ
query_output_price u s direction amount = do
  res ← get_output_price_with_reserves u s direction amount
  ok res

-- `quote.checked_mul(decimals)?.checked_div(base)?`, the price at two reserves.
unfoldable pub reserve_price : Uint128 → Config → ℕ → ℕ → StdResult ℕ
reserve_price u config quote_asset_reserve base_asset_reserve = do
  scaled ← u.checked_mul quote_asset_reserve config.decimals
  u.checked_div scaled base_asset_reserve

unfoldable pub query_spot_price : Uint128 → Storage → StdResult ℕ
unfolding read_config read_state reserve_price
query_spot_price u s = do
  config ← read_config s
  state ← read_state s
  reserve_price u config state.quote_asset_reserve state.base_asset_reserve

unfoldable pub query_calc_fee : Uint128 → Storage → ℕ → StdResult CalcFeeResponse
unfolding read_config
query_calc_fee u s quote_asset_amount =
    if quote_asset_amount == 0 then ok (record { toll_fee = 0; spread_fee = 0 }) else (do
      config ← read_config s
      toll ← u.checked_mul quote_asset_amount config.toll_ratio
      toll_fee ← u.checked_div toll config.decimals
      spread ← u.checked_mul quote_asset_amount config.spread_ratio
      spread_fee ← u.checked_div spread config.decimals
      ok (record { toll_fee = toll_fee; spread_fee = spread_fee }))

abbrev snapshot_price : Uint128 → Config → ReserveSnapshot → StdResult ℕ
snapshot_price u config snapshot =
    reserve_price u config snapshot.quote_asset_reserve snapshot.base_asset_reserve

-- `weighted_price.checked_add(price.checked_mul(delta).unwrap()).unwrap()`
abbrev pub add_weighted : Uint128 → ℕ → ℕ → ℕ → StdResult ℕ
add_weighted u weighted_price price delta_timestamp = do
  term ← unwrap (u.checked_mul price delta_timestamp)
  unwrap (u.checked_add weighted_price term)

module _ (u : Uint128) (api : Api) (s : Storage) (config : Config) where
  -- The rounds of the loop from `counter -= 1` on; the first argument is the counter there.
  unfoldable pub twap_loop : ℕ → ℕ → ℕ → ℕ → ℕ → ℕ → StdResult ℕ
  unfolding read_reserve_snapshot
  twap_loop zero interval base_timestamp previous_timestamp period weighted_price =
      u.checked_div weighted_price period
  twap_loop (suc counter) interval base_timestamp previous_timestamp period weighted_price = do
    current_snapshot ← unwrap (read_reserve_snapshot s (suc counter))
    current_price ← snapshot_price u config current_snapshot
    let timestamp = api.seconds current_snapshot.timestamp
    if leb timestamp base_timestamp
        then (do
          delta_timestamp ← u64_sub previous_timestamp base_timestamp
          weighted_price' ← add_weighted u weighted_price current_price delta_timestamp
          u.checked_div weighted_price' interval)
        else (do
          delta_timestamp ← u64_sub previous_timestamp timestamp
          weighted_price' ← add_weighted u weighted_price current_price delta_timestamp
          period' ← unwrap (u.checked_add period delta_timestamp)
          twap_loop counter interval base_timestamp timestamp period' weighted_price')

unfoldable pub calc_reserve_twap : Uint128 → Api → Storage → Env → ℕ → StdResult ℕ
unfolding read_config read_reserve_snapshot read_reserve_snapshot_counter
calc_reserve_twap u api s env interval = do
  config ← read_config s
  counter ← unwrap (read_reserve_snapshot_counter s)
  current_snapshot ← unwrap (read_reserve_snapshot s counter)
  current_price ← snapshot_price u config current_snapshot
  let now = api.seconds env.time
  let previous_timestamp = api.seconds current_snapshot.timestamp
  if interval == 0 then ok current_price else (do
    base_timestamp ← u64_sub now interval
    if counter == 1 || leb previous_timestamp base_timestamp then ok current_price else (do
      period ← u64_sub now previous_timestamp
      weighted_price ← u.checked_mul current_price period
      counter' ← u64_sub counter 1
      twap_loop u api s config counter' interval base_timestamp previous_timestamp period
          weighted_price))

unfoldable pub query_twap_price : Uint128 → Api → Storage → Env → ℕ → StdResult ℕ
query_twap_price u api s env interval = calc_reserve_twap u api s env interval
