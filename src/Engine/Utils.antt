-- ===== src/Engine/Utils.antt =====
-- contracts/margined_engine/src/utils.rs
use mrgnd_perpetuals.Base.{String, ok, ◌>>=◌, ◌>>◌, guard}
use mrgnd_perpetuals.Cosmwasm.{StdResult, generic_err, Response, default_response}
use mrgnd_perpetuals.Perp.Messages.{Payload}
use mrgnd_perpetuals.Perp.Engine.{Side, buy, sell}
use mrgnd_perpetuals.Perp.Vamm.{Direction, add_to_amm, remove_from_amm}
use mrgnd_perpetuals.Engine.State.{Storage, read_vamm, is_vamm}

unfoldable pub require_vamm : Storage → String → StdResult (Response Payload)
unfolding read_vamm is_vamm
require_vamm s vamm = do
  vamm_list ← read_vamm s
  guard (is_vamm vamm_list vamm) (generic_err "vAMM is not registered")
  ok default_response

unfoldable pub side_to_direction : Side → Direction
side_to_direction buy = add_to_amm
side_to_direction sell = remove_from_amm

unfoldable pub direction_to_side : Direction → Side
direction_to_side add_to_amm = buy
direction_to_side remove_from_amm = sell

unfoldable pub switch_direction : Direction → Direction
switch_direction remove_from_amm = add_to_amm
switch_direction add_to_amm = remove_from_amm

unfoldable pub switch_side : Side → Side
switch_side buy = sell
switch_side sell = buy
