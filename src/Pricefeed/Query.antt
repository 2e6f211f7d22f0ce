-- ===== src/Pricefeed/Query.antt =====
-- contracts/margined_pricefeed/src/query.rs: the queries.
use mrgnd_perpetuals.Base.{
  ℕ, zero, suc, String, List, [], ◌∷◌, ok, panic, ◌>>=◌, ◌>>◌, unwrap, unwrap_some, u64_sub, guard,
  leb, ◌==◌, not, if◌then◌else◌,
}
use mrgnd_perpetuals.Cosmwasm.{StdResult, generic_err, Uint128, Api, Env}
use mrgnd_perpetuals.Perp.Pricefeed.{ConfigResponse}
use mrgnd_perpetuals.Pricefeed.State.{Storage, PriceData, read_config, read_price_data, last, pop}

unfoldable pub query_config : Storage → StdResult ConfigResponse
unfolding read_config
query_config s = do
  config ← read_config s
  ok (record { owner = config.owner; decimals = config.decimals })

unfoldable pub query_get_price : Storage → String → StdResult PriceData
unfolding read_price_data
query_get_price s key = do prices ← unwrap (read_price_data s key); unwrap_some (last prices)

-- `while i < num_round_back { previous_prices.pop(); i += 1; }`
unfoldable pub pop_rounds : ℕ → List PriceData → List PriceData
pop_rounds zero prices = prices
pop_rounds (suc n) prices = pop_rounds n (pop prices)

unfoldable pub query_get_previous_price : Storage → String → ℕ → StdResult PriceData
unfolding read_price_data
query_get_previous_price s key num_round_back = do
  prices ← unwrap (read_price_data s key)
  latest_price ← unwrap_some (last prices)
  guard (leb num_round_back latest_price.round_id) (generic_err "Not enough history")
  unwrap_some (last (pop_rounds num_round_back prices))

-- `weighted_price.checked_add(price.checked_mul(delta).unwrap()).unwrap()`
abbrev pub add_weighted : Uint128 → ℕ → ℕ → ℕ → StdResult ℕ
add_weighted u weighted_price price delta_timestamp = do
  term ← unwrap (u.checked_mul price delta_timestamp)
  unwrap (u.checked_add weighted_price term)

module _ (u : Uint128) (api : Api) (interval base_timestamp : ℕ) where
  -- The loop; the last price is `latest_round`.
  unfoldable pub twap_loop : List PriceData → ℕ → ℕ → ℕ → StdResult ℕ
  twap_loop [] timestamp cumulative_time weighted_price = panic
  twap_loop (latest_round ∷ prices) timestamp cumulative_time weighted_price =
      if latest_round.round_id == 1
      then unwrap (u.checked_div weighted_price cumulative_time)
      else (do
        latest_round' ← unwrap_some (last prices)
        let timestamp' = api.seconds latest_round'.timestamp
        if leb timestamp' base_timestamp
            then (do
              delta_timestamp ← u64_sub timestamp base_timestamp
              weighted_price' ← add_weighted u weighted_price latest_round'.price delta_timestamp
              unwrap (u.checked_div weighted_price' interval))
            else (do
              delta_timestamp ← u64_sub timestamp timestamp'
              weighted_price' ← add_weighted u weighted_price latest_round'.price delta_timestamp
              cumulative_time' ← unwrap (u.checked_add cumulative_time delta_timestamp)
              twap_loop prices timestamp' cumulative_time' weighted_price'))

unfoldable pub query_get_twap_price : Uint128 → Api → Storage → Env → String → ℕ → StdResult ℕ
unfolding read_price_data
query_get_twap_price u api s env key interval = do
  guard (not (interval == 0)) (generic_err "Interval can't be zero")
  base_timestamp ← u64_sub (api.seconds env.time) interval
  prices ← unwrap (read_price_data s key)
  latest_round ← unwrap_some (last prices)
  let timestamp = api.seconds latest_round.timestamp
  cumulative_time ← u64_sub (api.seconds env.time) timestamp
  weighted_price ← u.checked_mul latest_round.price cumulative_time
  twap_loop u api interval base_timestamp prices timestamp cumulative_time weighted_price
