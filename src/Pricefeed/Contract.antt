-- ===== src/Pricefeed/Contract.antt =====
-- contracts/margined_pricefeed/src/contract.rs: the entry points; a query's answer is a value
-- where the source encodes it.
use mrgnd_perpetuals.Base.{ℕ, ok, ◌>>=◌, map_err, u128_pow10}
use mrgnd_perpetuals.Cosmwasm.{StdResult, Uint128, Api, MessageInfo, Env, default_response}
use mrgnd_perpetuals.Perp.Pricefeed.{InstantiateMsg, ExecuteMsg, QueryMsg, ConfigResponse}
use mrgnd_perpetuals.Pricefeed.State.{std, Storage, PriceData, empty_storage, store_config}
use mrgnd_perpetuals.Pricefeed.Handle.{Handled, update_config, append_price, append_multiple_price}
use mrgnd_perpetuals.Pricefeed.Query.{
  query_config, query_get_price, query_get_previous_price, query_get_twap_price,
}

unfoldable pub instantiate : Env → MessageInfo → InstantiateMsg → Handled
unfolding store_config
instantiate env info msg = do
  decimals ← u128_pow10 msg.decimals
  s ← map_err std (store_config empty_storage (record { owner = info.sender; decimals = decimals }))
  ok (s, default_response)

unfoldable pub execute : Api → Storage → Env → MessageInfo → ExecuteMsg → Handled
execute api s env info (ExecuteMsg.append_price key price timestamp) =
    append_price api s info key price timestamp
execute api s env info (ExecuteMsg.append_multiple_price key prices timestamps) =
    append_multiple_price api s info key prices timestamps
execute api s env info (ExecuteMsg.update_config owner) = update_config api s info owner

pub data Answer : Type 0 where
  config_answer : ConfigResponse → Answer
  price_answer : PriceData → Answer
  amount_answer : ℕ → Answer

unfoldable pub query : Uint128 → Api → Storage → Env → QueryMsg → StdResult Answer
query u api s env QueryMsg.config = do ok (config_answer (← query_config s))
query u api s env (QueryMsg.get_price key) = do ok (price_answer (← query_get_price s key))
query u api s env (QueryMsg.get_previous_price key num_round_back) = do
  ok (price_answer (← query_get_previous_price s key num_round_back))
query u api s env (QueryMsg.get_twap_price key interval) = do
  ok (amount_answer (← query_get_twap_price u api s env key interval))
