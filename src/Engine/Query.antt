-- ===== src/Engine/Query.antt =====
-- contracts/margined_engine/src/query.rs: the queries.
use mrgnd_perpetuals.Base.{ℕ, String, List, [], ◌∷◌, ok, ◌>>=◌, unwrap_some}
use mrgnd_perpetuals.Cosmwasm.{StdResult, Uint128, Api}
use mrgnd_perpetuals.Perp.Engine.{ConfigResponse, PositionResponse}
use mrgnd_perpetuals.Engine.State.{Imports, Storage, read_config, read_position, read_vamm}

unfoldable pub query_config : Storage → StdResult ConfigResponse
unfolding read_config
query_config s = do
  config ← read_config s
  ok (record { owner = config.owner; eligible_collateral = config.eligible_collateral })

unfoldable pub query_position :
    Api → Imports → Storage → String → String → StdResult PositionResponse
unfolding read_position
query_position api host s vamm trader = do
  vamm' ← api.addr_validate vamm
  trader' ← api.addr_validate trader
  current ← read_position host s vamm' trader'
  position ← unwrap_some current
  ok (record {
    size = position.size;
    margin = position.margin;
    notional = position.notional;
    premium_fraction = position.premium_fraction;
    liquidity_history_index = position.liquidity_history_index;
    timestamp = position.timestamp;
  })

-- The loop over the registered vAMMs, from the margin so far.
unfoldable pub add_margins :
    Uint128 → Api → Imports → Storage → String → List String → ℕ → StdResult ℕ
add_margins u api host s trader [] margin = ok margin
add_margins u api host s trader (vamm ∷ vamms) margin = do
  position ← query_position api host s vamm trader
  margin' ← u.checked_add margin position.margin
  add_margins u api host s trader vamms margin'

unfoldable pub query_trader_balance_with_funding_payment :
    Uint128 → Api → Imports → Storage → String → StdResult ℕ
unfolding read_vamm
query_trader_balance_with_funding_payment u api host s trader = do
  vamm_list ← read_vamm s
  add_margins u api host s trader vamm_list.vamm 0
