-- ===== src/Engine/Contract.antt =====
-- contracts/margined_engine/src/contract.rs: the entry points. A query's answer is a value where
-- the source encodes it.
use Prim.Native.String.{◌++◌ as append}
use mrgnd_perpetuals.Base.{
  ℕ, String, Option, none, some, List, [], ◌∷◌, Outcome, ok, err, panic, ◌>>=◌, ◌>>◌, guard,
  map_err, unwrap, unwrap_some, u128_pow10, str_eq, ◌==◌, if◌then◌else◌,
}
use mrgnd_perpetuals.Cosmwasm.{
  StdResult, generic_err, Uint128, Api, MessageInfo, Env, Response, default_response,
}
use mrgnd_perpetuals.Perp.Messages.{Payload}
use mrgnd_perpetuals.Perp.Engine.{
  InstantiateMsg, ExecuteMsg, Cw20ReceiveMsg, Cw20HookMsg, QueryMsg, ConfigResponse,
  PositionResponse,
}
use mrgnd_perpetuals.Engine.State.{
  ContractError, std, Imports, Storage, empty_storage, read_config, store_config, store_vamm,
}
use mrgnd_perpetuals.Engine.Handle.{
  Handled, swap_increase_reply_id, swap_decrease_reply_id, swap_reverse_reply_id,
  swap_close_reply_id, update_config, open_position, close_position,
}
use mrgnd_perpetuals.Engine.Reply.{
  increase_position_reply, decrease_position_reply, reverse_position_reply,
}
use mrgnd_perpetuals.Engine.Query.{
  query_config, query_position, query_trader_balance_with_funding_payment,
}

unfoldable pub instantiate :
    Api → Env → MessageInfo → InstantiateMsg → Outcome ContractError (Storage × Response Payload)
unfolding store_config store_vamm
instantiate api env info msg = do
  decimals ← u128_pow10 msg.decimals
  eligible_collateral ← map_err std (api.addr_validate msg.eligible_collateral)
  s ← map_err std (
      store_config empty_storage (record {
        owner = info.sender;
        eligible_collateral = eligible_collateral;
        decimals = decimals;
        initial_margin_ratio = msg.initial_margin_ratio;
        maintenance_margin_ratio = msg.maintenance_margin_ratio;
        liquidation_fee = msg.liquidation_fee;
      }))
  s' ← map_err std (store_vamm api s msg.vamm)
  ok (s', default_response)

-- The match on `from_binary(&cw20_msg.msg)`.
unfoldable pub open_by_hook :
    Uint128
    → Api
    → Imports
    → Storage
    → Env
    → MessageInfo
    → Cw20ReceiveMsg
    → StdResult Cw20HookMsg
    → Handled
open_by_hook u api host s env info cw20_msg (ok (Cw20HookMsg.open_position vamm side leverage)) =
    open_position u api host s env info vamm cw20_msg.sender side cw20_msg.amount leverage
open_by_hook u api host s env info cw20_msg (err _) = err (generic_err "invalid cw20 hook message")
open_by_hook u api host s env info cw20_msg panic = panic

unfoldable pub receive_cw20 :
    Uint128 → Api → Imports → Storage → Env → MessageInfo → Cw20ReceiveMsg → Handled
unfolding read_config open_by_hook
receive_cw20 u api host s env info cw20_msg = do
  config ← read_config s
  sender ← api.addr_validate info.sender
  guard (str_eq config.eligible_collateral sender) (generic_err "unauthorized")
  open_by_hook u api host s env info cw20_msg (host.from_binary cw20_msg.msg)

unfoldable pub execute :
    Uint128 → Api → Imports → Storage → Env → MessageInfo → ExecuteMsg → Handled
execute u api host s env info (ExecuteMsg.receive msg) = receive_cw20 u api host s env info msg
execute u api host s env info (ExecuteMsg.update_config owner) = update_config api s info owner
execute u api host s env info (ExecuteMsg.open_position vamm side quote_asset_amount leverage) =
    open_position u api host s env info vamm info.sender side quote_asset_amount leverage
execute u api host s env info (ExecuteMsg.close_position vamm) =
    close_position api host s env info vamm info.sender swap_close_reply_id

pub data Answer : Type 0 where
  config_answer : ConfigResponse → Answer
  position_answer : PositionResponse → Answer
  amount_answer : ℕ → Answer

unfoldable pub query : Uint128 → Api → Imports → Storage → Env → QueryMsg → StdResult Answer
query u api host s env QueryMsg.config = do ok (config_answer (← query_config s))
query u api host s env (QueryMsg.position vamm trader) = do
  ok (position_answer (← query_position api host s vamm trader))
query u api host s env (QueryMsg.trader_balance trader) = do
  ok (amount_answer (← query_trader_balance_with_funding_payment u api host s trader))

pub record Event : Type 0 where
  pub ty : String
  pub attributes : List (String × String)

-- `ContractResult`, with the events of the response.
pub data ContractResult : Type 0 where
  success : List Event → ContractResult
  failure : String → ContractResult

unfoldable pub find_event : String → List Event → Option Event
find_event ty [] = none
find_event ty (e ∷ events) = if str_eq e.ty ty then some e else find_event ty events

unfoldable pub find_attribute : String → List (String × String) → Option String
find_attribute key [] = none
find_attribute key ((k, value) ∷ attributes) =
    if str_eq k key then some value else find_attribute key attributes

unfoldable pub read_event : String → Event → StdResult String
read_event key event = unwrap_some (find_attribute key event.attributes)

unfoldable pub parse_swap : Api → List Event → StdResult (ℕ × ℕ)
unfolding read_event
parse_swap api events = do
  wasm ← unwrap_some (find_event "wasm" events)
  input_str ← read_event "input" wasm
  input ← unwrap (api.from_str input_str)
  output_str ← read_event "output" wasm
  output ← unwrap (api.from_str output_str)
  ok (input, output)

unfoldable pub reply : Uint128 → Api → Imports → Storage → Env → ℕ → ContractResult → Handled
reply u api host s env id (success events) =
    if id == swap_increase_reply_id
    then (do
      (input, output) ← parse_swap api events
      increase_position_reply u host s env input output)
    else if id == swap_decrease_reply_id
    then (do
      (input, output) ← parse_swap api events
      decrease_position_reply u host s env input output)
    else if id == swap_reverse_reply_id
    then (do
      (input, output) ← parse_swap api events
      reverse_position_reply u host s env input output)
    else err (generic_err (append "reply (id " (append (api.to_string id) ") invalid")))
reply u api host s env id (failure e) = err (
    generic_err (append "reply (id " (append (api.to_string id) (append ") error " (api.debug e)))))
