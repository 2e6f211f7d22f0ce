-- ===== src/Vamm/Contract.antt =====
-- contracts/margined_vamm/src/contract.rs: the entry points. `query` encodes its answer as binary;
-- here the answer is a value, with a constructor for each response type.
use mrgnd_perpetuals.Base.{ℕ, ok, ◌>>=◌, map_err, u128_pow10}
use mrgnd_perpetuals.Cosmwasm.{StdResult, Uint128, Api, MessageInfo, Env, default_response}
use mrgnd_perpetuals.Perp.Vamm.{
  InstantiateMsg, ExecuteMsg, QueryMsg, ConfigResponse, StateResponse, CalcFeeResponse,
}
use mrgnd_perpetuals.Vamm.State.{
  std, Storage, empty_storage, store_config, store_state, store_reserve_snapshot,
}
use mrgnd_perpetuals.Vamm.Handle.{Handled, update_config, swap_input, swap_output}
use mrgnd_perpetuals.Vamm.Query.{
  query_config, query_state, query_output_price, query_spot_price, query_twap_price, query_calc_fee,
}

-- A contract is instantiated once, on empty storage.
unfoldable pub instantiate : Env → MessageInfo → InstantiateMsg → Handled
unfolding store_config store_state store_reserve_snapshot
instantiate env info msg = do
  decimals ← u128_pow10 msg.decimals
  s ← map_err std (
      store_config empty_storage (record {
        owner = info.sender;
        quote_asset = msg.quote_asset;
        base_asset = msg.base_asset;
        toll_ratio = msg.toll_ratio;
        spread_ratio = msg.spread_ratio;
        decimals = decimals;
      }))
  s' ← map_err std (
      store_state s (record {
        base_asset_reserve = msg.base_asset_reserve;
        quote_asset_reserve = msg.quote_asset_reserve;
        funding_rate = 0;
        funding_period = msg.funding_period;
      }))
  s'' ← map_err std (
      store_reserve_snapshot s' (record {
        base_asset_reserve = msg.base_asset_reserve;
        quote_asset_reserve = msg.quote_asset_reserve;
        timestamp = env.time;
        block_height = env.height;
      }))
  ok (s'', default_response)

unfoldable pub execute : Uint128 → Api → Storage → Env → MessageInfo → ExecuteMsg → Handled
execute u api s env info (ExecuteMsg.update_config owner toll_ratio spread_ratio) =
    update_config api s info owner toll_ratio spread_ratio
execute u api s env info (ExecuteMsg.swap_input direction quote_asset_amount) =
    swap_input u api s env info direction quote_asset_amount
execute u api s env info (ExecuteMsg.swap_output direction base_asset_amount) =
    swap_output u api s env info direction base_asset_amount

pub data Answer : Type 0 where
  config_answer : ConfigResponse → Answer
  state_answer : StateResponse → Answer
  amount_answer : ℕ → Answer
  fee_answer : CalcFeeResponse → Answer

unfoldable pub query : Uint128 → Api → Storage → Env → QueryMsg → StdResult Answer
query u api s env QueryMsg.config = do ok (config_answer (← query_config s))
query u api s env QueryMsg.state = do ok (state_answer (← query_state s))
query u api s env (QueryMsg.output_price direction amount) = do
  ok (amount_answer (← query_output_price u s direction amount))
query u api s env (QueryMsg.calc_fee quote_asset_amount) = do
  ok (fee_answer (← query_calc_fee u s quote_asset_amount))
query u api s env QueryMsg.spot_price = do ok (amount_answer (← query_spot_price u s))
query u api s env (QueryMsg.twap_price interval) = do
  ok (amount_answer (← query_twap_price u api s env interval))
