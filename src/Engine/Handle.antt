-- ===== src/Engine/Handle.antt =====
-- contracts/margined_engine/src/handle.rs, and the reply ids of contract.rs: the execute handlers.
-- A handler returns the storage and the response; a failing one leaves no storage.
use mrgnd_perpetuals.Base.{
  ℕ, String, Bool, true, false, Option, none, some, [], ◌∷◌, ok, ◌>>=◌, ◌>>◌, guard, unwrap,
  unwrap_some, ltb, str_eq, if◌then◌else◌,
}
use mrgnd_perpetuals.Cosmwasm.{
  StdResult, generic_err, Uint128, Api, MessageInfo, Env, SubMsg, always, Response,
  default_response,
}
use mrgnd_perpetuals.Perp.Messages.{Payload, to_vamm}
use mrgnd_perpetuals.Perp.Engine.{Side, buy, sell}
use mrgnd_perpetuals.Perp.Vamm.{Direction, ExecuteMsg, add_to_amm, remove_from_amm}
use mrgnd_perpetuals.Engine.State.{
  Imports, Storage, Position, default_position, read_config, store_config, read_position,
  store_tmp_swap,
}
use mrgnd_perpetuals.Engine.Querier.{query_vamm_output_price}
use mrgnd_perpetuals.Engine.Utils.{
  require_vamm, side_to_direction, direction_to_side, switch_direction,
}

abbrev pub Handled : Type 0
Handled = StdResult (Storage × Response Payload)

abbrev pub swap_increase_reply_id : ℕ
swap_increase_reply_id = 1

abbrev pub swap_decrease_reply_id : ℕ
swap_decrease_reply_id = 2

abbrev pub swap_reverse_reply_id : ℕ
swap_reverse_reply_id = 3

abbrev pub swap_close_reply_id : ℕ
swap_close_reply_id = 4

unfoldable pub update_config : Api → Storage → MessageInfo → String → Handled
unfolding read_config store_config
update_config api s info owner = do
  config ← read_config s
  guard (str_eq info.sender config.owner) (generic_err "unauthorized")
  addr ← unwrap (api.addr_validate owner)
  s' ← store_config s (record config { owner = addr })
  ok (s', default_response)

-- The default position of a new trader on the side's direction.
abbrev pub new_position : Env → String → String → Side → Position
new_position env vamm trader side = record default_position {
  vamm = vamm;
  trader = trader;
  direction = side_to_direction side;
  timestamp = env.time;
}

abbrev pub position_or_new : Env → String → String → Side → Option Position → Position
position_or_new env vamm trader side (some current_position) = current_position
position_or_new env vamm trader side none = new_position env vamm trader side

unfoldable pub get_position : Imports → Env → Storage → String → String → Side → StdResult Position
unfolding read_position
get_position host env s vamm trader side = do
  current_position ← unwrap (read_position host s vamm trader)
  ok (position_or_new env vamm trader side current_position)

unfoldable pub swap_input : String → Side → ℕ → ℕ → StdResult (SubMsg Payload)
swap_input contract_addr side open_notional id = ok (record {
  contract_addr = contract_addr;
  msg = to_vamm (ExecuteMsg.swap_input (side_to_direction side) open_notional);
  id = id;
  reply_on = always;
})

unfoldable pub swap_output : String → Side → ℕ → ℕ → StdResult (SubMsg Payload)
swap_output contract_addr side open_notional id = ok (record {
  contract_addr = contract_addr;
  msg = to_vamm (ExecuteMsg.swap_output (side_to_direction side) open_notional);
  id = id;
  reply_on = always;
})

unfoldable pub internal_increase_position : String → Side → ℕ → StdResult (SubMsg Payload)
unfolding swap_input
internal_increase_position vamm side open_notional =
    unwrap (swap_input vamm side open_notional swap_increase_reply_id)

unfoldable pub open_reverse_position :
    Imports → Env → Storage → String → String → Side → ℕ → StdResult (SubMsg Payload)
unfolding get_position query_vamm_output_price swap_input swap_output
open_reverse_position host env s vamm trader side open_notional = do
  position ← get_position host env s vamm trader side
  current_notional ← unwrap (query_vamm_output_price host vamm position.direction position.size)
  if ltb open_notional current_notional
      then unwrap (swap_input vamm side open_notional swap_decrease_reply_id)
      else unwrap (
          swap_output vamm (direction_to_side position.direction) position.size
            swap_reverse_reply_id)

-- Whether an order on `side` adds to a position of this direction.
unfoldable pub is_increase : Direction → Side → Bool
is_increase add_to_amm buy = true
is_increase remove_from_amm sell = true
is_increase add_to_amm sell = false
is_increase remove_from_amm buy = false

unfoldable pub open_position :
    Uint128 → Api → Imports → Storage → Env → MessageInfo → String → String → Side → ℕ → ℕ → Handled
unfolding read_config get_position store_tmp_swap
open_position u api host s env info vamm_addr trader_addr side quote_asset_amount leverage = do
  vamm ← api.addr_validate vamm_addr
  trader ← api.addr_validate trader_addr
  require_vamm s vamm
  config ← read_config s
  leveraged ← u.checked_mul quote_asset_amount leverage
  open_notional ← u.checked_div leveraged config.decimals
  position ← get_position host env s vamm trader side
  msg ←
      (if is_increase position.direction side
        then internal_increase_position vamm side open_notional
        else open_reverse_position host env s vamm trader side open_notional)
  s' ← store_tmp_swap s (record {
    vamm = vamm;
    trader = trader;
    side = side;
    quote_asset_amount = quote_asset_amount;
    leverage = leverage;
    open_notional = open_notional;
  })
  ok (s', record { messages = msg ∷ []; attributes = ("action", "open_position") ∷ [] })

unfoldable pub close_position :
    Api → Imports → Storage → Env → MessageInfo → String → String → ℕ → Handled
unfolding read_position switch_direction
close_position api host s env info vamm_addr trader_addr id = do
  vamm_valid ← api.addr_validate vamm_addr
  trader ← api.addr_validate trader_addr
  current ← read_position host s vamm_valid trader
  position ← unwrap_some current
  let msg : SubMsg Payload = record {
    contract_addr = vamm_valid;
    msg = to_vamm (ExecuteMsg.swap_output (switch_direction position.direction) position.size);
    id = id;
    reply_on = always;
  }
  ok (s, record { messages = msg ∷ []; attributes = ("action", "close_position") ∷ [] })

unfoldable pub clear_position : Env → Position → StdResult Position
clear_position env position =
    ok (record position { size = 0; margin = 0; notional = 0; timestamp = env.time })
