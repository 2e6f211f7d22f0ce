-- ===== src/Pricefeed/Handle.antt =====
-- contracts/margined_pricefeed/src/handle.rs: the execute handlers.
use mrgnd_perpetuals.Base.{
  ℕ, String, Option, none, some, List, [], ◌∷◌, Outcome, ok, panic, ◌>>=◌, ◌>>◌, guard, map_err,
  str_eq, ◌==◌,
}
use mrgnd_perpetuals.Cosmwasm.{StdResult, Api, MessageInfo, Response, default_response}
use mrgnd_perpetuals.Perp.Messages.{Payload}
use mrgnd_perpetuals.Pricefeed.State.{
  ContractError, std, unauthorized, Config, Storage, length, read_config, store_config,
  store_price_data,
}

abbrev pub Handled : Type 0
Handled = Outcome ContractError (Storage × Response Payload)

unfoldable pub set_owner : Api → Config → Option String → StdResult Config
set_owner api config none = ok config
set_owner api config (some owner) = do
  addr ← api.addr_validate owner
  ok (record config { owner = addr })

unfoldable pub update_config : Api → Storage → MessageInfo → Option String → Handled
unfolding set_owner read_config store_config
update_config api s info owner = do
  config ← map_err std (read_config s)
  guard (str_eq info.sender config.owner) unauthorized
  config' ← map_err std (set_owner api config owner)
  s' ← map_err std (store_config s config')
  ok (s', default_response)

unfoldable pub append_price : Api → Storage → MessageInfo → String → ℕ → ℕ → Handled
unfolding read_config
append_price api s info key price timestamp = do
  config ← map_err std (read_config s)
  guard (str_eq info.sender config.owner) unauthorized
  s' ← map_err std (store_price_data api s key price timestamp)
  ok (s', default_response)

-- `for index in 0..prices.len()`; `timestamps[index]` panics past the end.
unfoldable pub store_each : Api → Storage → String → List ℕ → List ℕ → StdResult Storage
store_each api s key [] timestamps = ok s
store_each api s key (price ∷ prices) [] = panic
store_each api s key (price ∷ prices) (timestamp ∷ timestamps) = do
  s' ← store_price_data api s key price timestamp
  store_each api s' key prices timestamps

unfoldable pub append_multiple_price :
    Api → Storage → MessageInfo → String → List ℕ → List ℕ → Handled
unfolding read_config
append_multiple_price api s info key prices timestamps = do
  config ← map_err std (read_config s)
  guard (str_eq info.sender config.owner) unauthorized
  guard (length prices == length timestamps) unauthorized
  s' ← map_err std (store_each api s key prices timestamps)
  ok (s', default_response)
