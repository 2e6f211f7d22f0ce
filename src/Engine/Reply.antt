-- ===== src/Engine/Reply.antt =====
-- contracts/margined_engine/src/reply.rs: what happens once a vAMM has swapped.
use mrgnd_perpetuals.Base.{
  ℕ, String, Option, none, some, [], ◌∷◌, ok, err, ◌>>=◌, unwrap, ltb, ◌==◌, if◌then◌else◌,
}
use mrgnd_perpetuals.Cosmwasm.{
  StdResult, generic_err, Uint128, Env, SubMsg, never, default_response,
}
use mrgnd_perpetuals.Perp.Messages.{Payload, to_cw20, transfer, transfer_from}
use mrgnd_perpetuals.Engine.State.{
  Imports, Storage, Swap, read_config, read_tmp_swap, remove_tmp_swap, store_position,
  store_tmp_swap,
}
use mrgnd_perpetuals.Engine.Utils.{side_to_direction}
use mrgnd_perpetuals.Engine.Handle.{
  Handled, get_position, clear_position, internal_increase_position,
}

unfoldable pub execute_transfer_from : Storage → String → String → ℕ → StdResult (SubMsg Payload)
unfolding read_config
execute_transfer_from s owner receiver amount = do
  config ← read_config s
  ok (record {
    contract_addr = config.eligible_collateral;
    msg = to_cw20 (transfer_from owner receiver amount);
    id = 0;
    reply_on = never;
  })

unfoldable pub execute_transfer : Storage → String → ℕ → StdResult (SubMsg Payload)
unfolding read_config
execute_transfer s receiver amount = do
  config ← read_config s
  ok (record {
    contract_addr = config.eligible_collateral;
    msg = to_cw20 (transfer receiver amount);
    id = 0;
    reply_on = never;
  })

-- `if tmp_swap.is_none() { return Err(..) }`, and `unwrap`.
unfoldable pub some_swap : Option Swap → StdResult Swap
some_swap none = err (generic_err "no temporary position")
some_swap (some swap) = ok swap

unfoldable pub increase_position_reply : Uint128 → Imports → Storage → Env → ℕ → ℕ → Handled
unfolding read_config read_tmp_swap some_swap get_position store_position execute_transfer_from
    remove_tmp_swap
increase_position_reply u host s env input output = do
  config ← read_config s
  tmp_swap ← read_tmp_swap s
  swap ← some_swap tmp_swap
  position ← get_position host env s swap.vamm swap.trader swap.side
  size ← u.checked_add position.size output
  notional ← u.checked_add position.notional swap.open_notional
  scaled ← u.checked_mul notional config.decimals
  margin ← u.checked_div scaled swap.leverage
  s' ← store_position host s (record position {
    size = size;
    notional = notional;
    direction = side_to_direction swap.side;
    margin = margin;
  })
  msg ← unwrap (execute_transfer_from s' swap.trader env.contract margin)
  ok (remove_tmp_swap s', record { messages = msg ∷ []; attributes = [] })

unfoldable pub decrease_position_reply : Uint128 → Imports → Storage → Env → ℕ → ℕ → Handled
unfolding read_tmp_swap some_swap get_position store_position remove_tmp_swap
decrease_position_reply u host s env input output = do
  tmp_swap ← read_tmp_swap s
  swap ← some_swap tmp_swap
  position ← get_position host env s swap.vamm swap.trader swap.side
  size ← u.checked_sub position.size output
  notional ← u.checked_sub position.notional swap.open_notional
  s' ← store_position host s (record position { size = size; notional = notional })
  ok (remove_tmp_swap s', default_response)

-- The swap's notional less what the closed position brought, or the other way round.
abbrev pub remaining : Uint128 → ℕ → ℕ → StdResult ℕ
remaining u open_notional output =
    if ltb output open_notional
    then u.checked_sub open_notional output
    else u.checked_sub output open_notional

unfoldable pub reverse_position_reply : Uint128 → Imports → Storage → Env → ℕ → ℕ → Handled
unfolding read_tmp_swap some_swap get_position clear_position execute_transfer remove_tmp_swap
    store_tmp_swap internal_increase_position store_position
reverse_position_reply u host s env input output = do
  tmp_swap ← read_tmp_swap s
  swap ← some_swap tmp_swap
  position ← get_position host env s swap.vamm swap.trader swap.side
  let margin_amount = position.margin
  cleared ← clear_position env position
  open_notional ← remaining u swap.open_notional output
  units ← u.checked_div open_notional swap.leverage
  (s', msg) ←
      (if units == 0
        then (do
          msg ← unwrap (execute_transfer s swap.trader margin_amount)
          ok (remove_tmp_swap s, msg))
        else (do
          s' ← store_tmp_swap s (record swap { open_notional = open_notional })
          msg ← internal_increase_position swap.vamm swap.side open_notional
          ok (s', msg)))
  s'' ← store_position host s' cleared
  ok (s'', record { messages = msg ∷ []; attributes = [] })
