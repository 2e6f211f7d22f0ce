-- ===== src/Vamm/Handle.antt =====
-- contracts/margined_vamm/src/handle.rs: the execute handlers. A handler that fails returns no
-- storage, since the host then drops what it wrote.
use mrgnd_perpetuals.Base.{
  ℕ, String, Option, none, some, [], ◌∷◌, Outcome, ok, ◌>>=◌, ◌>>◌, guard, map_err, ltb, ◌==◌,
  str_eq, if◌then◌else◌,
}
use mrgnd_perpetuals.Cosmwasm.{
  StdResult, Uint128, Api, MessageInfo, Env, Response, default_response,
}
use mrgnd_perpetuals.Perp.Messages.{Payload}
use mrgnd_perpetuals.Perp.Vamm.{Direction, add_to_amm, remove_from_amm}
use mrgnd_perpetuals.Vamm.State.{
  ContractError, std, unauthorized, Config, State, Storage, read_config, store_config, read_state,
  store_state, store_reserve_snapshot,
}
use mrgnd_perpetuals.Vamm.Decimals.{modulo}

abbrev pub Handled : Type 0
Handled = Outcome ContractError (Storage × Response Payload)

unfoldable pub set_owner : Api → Config → Option String → StdResult Config
set_owner api config none = ok config
set_owner api config (some owner) = do
  addr ← api.addr_validate owner
  ok (record config { owner = addr })

unfoldable pub set_toll_ratio : Config → Option ℕ → Config
set_toll_ratio config none = config
set_toll_ratio config (some toll_ratio) = record config { toll_ratio = toll_ratio }

unfoldable pub set_spread_ratio : Config → Option ℕ → Config
set_spread_ratio config none = config
set_spread_ratio config (some spread_ratio) = record config { spread_ratio = spread_ratio }

unfoldable pub update_config :
    Api → Storage → MessageInfo → Option String → Option ℕ → Option ℕ → Handled
unfolding set_owner set_toll_ratio set_spread_ratio read_config store_config
update_config api s info owner toll_ratio spread_ratio = do
  config ← map_err std (read_config s)
  guard (str_eq info.sender config.owner) unauthorized
  config' ← map_err std (set_owner api config owner)
  s' ←
      map_err std
        (store_config s (set_spread_ratio (set_toll_ratio config' toll_ratio) spread_ratio))
  ok (s', default_response)

-- The two reserves' distance, `a - b` or `b - a`.
abbrev pub difference : Uint128 → ℕ → ℕ → StdResult ℕ
difference u after reserve = if ltb reserve after then u.sub after reserve else u.sub reserve after

-- One unit less is paid out, or one more taken in, if the division was not exact.
unfoldable pub round : Uint128 → Direction → ℕ → ℕ → StdResult ℕ
round u direction remainder amount = if remainder == 0 then ok amount else elim direction [
  | add_to_amm ↦ u.checked_sub amount 1
  | remove_from_amm ↦ u.checked_add amount 1
]

-- `checked_add` or `checked_sub` by the direction.
unfoldable pub moved : Uint128 → Direction → ℕ → ℕ → StdResult ℕ
moved u add_to_amm reserve amount = u.checked_add reserve amount
moved u remove_from_amm reserve amount = u.checked_sub reserve amount

-- The source's test of a zero amount has a body without effect, so nothing stands for it.
unfoldable pub get_input_price_with_reserves : Uint128 → Storage → Direction → ℕ → StdResult ℕ
unfolding read_state read_config moved modulo round
get_input_price_with_reserves u s direction quote_asset_amount = do
  state ← read_state s
  config ← read_config s
  product ← u.checked_mul state.quote_asset_reserve state.base_asset_reserve
  invariant_k ← u.checked_div product config.decimals
  quote_asset_after ← moved u direction state.quote_asset_reserve quote_asset_amount
  scaled_k ← u.checked_mul invariant_k config.decimals
  base_asset_after ← u.checked_div scaled_k quote_asset_after
  base_asset_bought ← difference u base_asset_after state.base_asset_reserve
  remainder ← modulo u invariant_k quote_asset_after
  round u direction remainder base_asset_bought

unfoldable pub get_output_price_with_reserves : Uint128 → Storage → Direction → ℕ → StdResult ℕ
unfolding read_state read_config moved modulo round
get_output_price_with_reserves u s direction base_asset_amount = do
  state ← read_state s
  config ← read_config s
  product ← u.checked_mul state.quote_asset_reserve state.base_asset_reserve
  invariant_k ← u.checked_div product config.decimals
  base_asset_after ← moved u direction state.base_asset_reserve base_asset_amount
  scaled_k ← u.checked_mul invariant_k config.decimals
  quote_asset_after ← u.checked_div scaled_k base_asset_after
  quote_asset_sold ← difference u quote_asset_after state.quote_asset_reserve
  remainder ← modulo u invariant_k base_asset_after
  round u direction remainder quote_asset_sold

unfoldable pub add_reserve_snapshot : Storage → Env → ℕ → ℕ → StdResult (Storage × Response Payload)
unfolding store_reserve_snapshot
add_reserve_snapshot s env quote_asset_reserve base_asset_reserve = do
  s' ← store_reserve_snapshot s (record {
    quote_asset_reserve = quote_asset_reserve;
    base_asset_reserve = base_asset_reserve;
    timestamp = env.time;
    block_height = env.height;
  })
  ok (s', default_response)

unfoldable pub moved_reserves : Uint128 → State → Direction → ℕ → ℕ → StdResult State
moved_reserves u state add_to_amm quote_asset_amount base_asset_amount = do
  quote ← u.checked_add state.quote_asset_reserve quote_asset_amount
  base ← u.checked_sub state.base_asset_reserve base_asset_amount
  ok (record state { quote_asset_reserve = quote; base_asset_reserve = base })
moved_reserves u state remove_from_amm quote_asset_amount base_asset_amount = do
  base ← u.checked_add state.base_asset_reserve base_asset_amount
  quote ← u.checked_sub state.quote_asset_reserve quote_asset_amount
  ok (record state { quote_asset_reserve = quote; base_asset_reserve = base })

unfoldable pub update_reserve :
    Uint128 → Storage → Env → Direction → ℕ → ℕ → StdResult (Storage × Response Payload)
unfolding read_state store_state moved_reserves add_reserve_snapshot
update_reserve u s env direction quote_asset_amount base_asset_amount = do
  state ← read_state s
  update_state ← moved_reserves u state direction quote_asset_amount base_asset_amount
  s' ← store_state s update_state
  (s'', _) ←
      add_reserve_snapshot s' env update_state.quote_asset_reserve update_state.base_asset_reserve
  ok (s'', record { messages = []; attributes = ("action", "update_reserve") ∷ [] })

-- The attributes by which the margin engine reads a swap.
abbrev pub swap_response : Api → String → ℕ → ℕ → Response Payload
swap_response api action input output = record {
  messages = [];
  attributes =
      ("action", action) ∷ ("input", api.to_string input) ∷ ("output", api.to_string output) ∷ [];
}

unfoldable pub swap_input : Uint128 → Api → Storage → Env → MessageInfo → Direction → ℕ → Handled
swap_input u api s env info direction quote_asset_amount = do
  base_asset_amount ← map_err std (get_input_price_with_reserves u s direction quote_asset_amount)
  (s', _) ← map_err std (update_reserve u s env direction quote_asset_amount base_asset_amount)
  ok (s', swap_response api "swap_input" quote_asset_amount base_asset_amount)

unfoldable pub flip : Direction → Direction
flip add_to_amm = remove_from_amm
flip remove_from_amm = add_to_amm

unfoldable pub swap_output : Uint128 → Api → Storage → Env → MessageInfo → Direction → ℕ → Handled
unfolding flip
swap_output u api s env info direction base_asset_amount = do
  quote_asset_amount ← map_err std (get_output_price_with_reserves u s direction base_asset_amount)
  (s', _) ←
      map_err std (update_reserve u s env (flip direction) quote_asset_amount base_asset_amount)
  ok (s', swap_response api "swap_output" base_asset_amount quote_asset_amount)
