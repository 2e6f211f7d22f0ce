-- ===== src/Engine/Ordering.antt =====
-- open_position of handle.rs in closed form, for an order that adds to a position, one that takes
-- from it, and one that reverses it.
use mrgnd_perpetuals.Base.{
  ℕ, ◌*◌, ◌/◌, ◌^◌, ◌<◌, ◌≡◌, String, true, some, [], ◌∷◌, ok, false, lt→ltb, ltb, ◌≤◌, arith,
}
use mrgnd_perpetuals.Cosmwasm.{
  Uint128, IsUint128, eq-documented, documented, Api, Env, MessageInfo, default_response, always,
  SubMsg,
}
use mrgnd_perpetuals.Perp.Engine.{Side}
use mrgnd_perpetuals.Engine.State.{
  Imports, Storage, Config, Swap, VammList, is_vamm, read_vamm, Position,
}
use mrgnd_perpetuals.Engine.Utils.{require_vamm, side_to_direction, direction_to_side}
use mrgnd_perpetuals.Engine.Handle.{
  open_position, is_increase, internal_increase_position, swap_input, open_reverse_position,
  swap_decrease_reply_id, swap_output, swap_reverse_reply_id,
}
use mrgnd_perpetuals.Engine.Positions.{current, reopening_msg, checked_mul-ok, checked_div-ok}
use mrgnd_perpetuals.Perp.Messages.{Payload, to_vamm}
use mrgnd_perpetuals.Perp.Vamm
use mrgnd_perpetuals.Engine.Querier.{query_vamm_output_price}

-- The swap that an order stands for.
abbrev pub swap_of : String → String → Side → ℕ → ℕ → ℕ → Swap
swap_of vamm trader side quote_asset_amount leverage open_notional = record {
  vamm = vamm;
  trader = trader;
  side = side;
  quote_asset_amount = quote_asset_amount;
  leverage = leverage;
  open_notional = open_notional;
}

require_vamm-ok :
    (s : Storage) (vamm : String) {list : VammList}
    → s.vamm_list ≡ some list
    → is_vamm list vamm ≡ true
    → require_vamm s vamm ≡ ok default_response
unfolding require_vamm read_vamm
require_vamm-ok s vamm el listed = simp (el, listed)

module _ (api : Api) (host : Imports) (s : Storage) (env : Env) (info : MessageInfo)
    (vamm trader : String) (side : Side) (q leverage : ℕ) {config : Config} {list : VammList}
    (valid_vamm : api.addr_validate vamm ≡ ok vamm)
    (valid_trader : api.addr_validate trader ≡ ok trader) (ec : s.config ≡ some config)
    (el : s.vamm_list ≡ some list) (listed : is_vamm list vamm ≡ true)
    (fits : q * leverage < 2 ^ 128) (pos : 0 < config.decimals) where
  ordered-documented :
      (let swap = swap_of vamm trader side q leverage (q * leverage / config.decimals) in
        is_increase (current host env s swap).direction side ≡ true)
      → (let swap = swap_of vamm trader side q leverage (q * leverage / config.decimals) in
          open_position documented api host s env info vamm trader side q leverage
          ≡ ok (
            record s { tmp_swap = some swap },
            record {
              messages = reopening_msg swap (q * leverage / config.decimals) ∷ [];
              attributes = ("action", "open_position") ∷ [];
            },
          ))
  unfolding open_position internal_increase_position swap_input
  ordered-documented adds = simp (
    valid_vamm,
    valid_trader,
    require_vamm-ok s vamm el listed,
    ec,
    checked_mul-ok q leverage fits,
    checked_div-ok (q * leverage) config.decimals pos,
    adds,
  )

  pub open_position-ordered :
      (u : Uint128)
      → IsUint128 u
      → (let swap = swap_of vamm trader side q leverage (q * leverage / config.decimals) in
          is_increase (current host env s swap).direction side ≡ true)
      → (let swap = swap_of vamm trader side q leverage (q * leverage / config.decimals) in
          open_position u api host s env info vamm trader side q leverage
          ≡ ok (
            record s { tmp_swap = some swap },
            record {
              messages = reopening_msg swap (q * leverage / config.decimals) ∷ [];
              attributes = ("action", "open_position") ∷ [];
            },
          ))
  open_position-ordered u laws adds = rw (eq-documented u laws) (ordered-documented adds)

-- The message of an order that takes from a position.
abbrev pub reducing_msg : Swap → ℕ → SubMsg Payload
reducing_msg swap open_notional = record {
  contract_addr = swap.vamm;
  msg = to_vamm (Vamm.ExecuteMsg.swap_input (side_to_direction swap.side) open_notional);
  id = swap_decrease_reply_id;
  reply_on = always;
}

module _ (api : Api) (host : Imports) (s : Storage) (env : Env) (info : MessageInfo)
    (vamm trader : String) (side : Side) (q leverage worth : ℕ) {config : Config} {list : VammList}
    (valid_vamm : api.addr_validate vamm ≡ ok vamm)
    (valid_trader : api.addr_validate trader ≡ ok trader) (ec : s.config ≡ some config)
    (el : s.vamm_list ≡ some list) (listed : is_vamm list vamm ≡ true)
    (fits : q * leverage < 2 ^ 128) (pos : 0 < config.decimals)
    (less : q * leverage / config.decimals < worth) where
  reduced-documented :
      (let swap = swap_of vamm trader side q leverage (q * leverage / config.decimals) in
        is_increase (current host env s swap).direction side ≡ false
        → query_vamm_output_price host vamm
            (current host env s swap).direction
            (current host env s swap).size
          ≡ ok worth
        → open_position documented api host s env info vamm trader side q leverage
          ≡ ok (
            record s { tmp_swap = some swap },
            record {
              messages = reducing_msg swap (q * leverage / config.decimals) ∷ [];
              attributes = ("action", "open_position") ∷ [];
            },
          ))
  unfolding open_position open_reverse_position swap_input
  reduced-documented takes priced = simp (
    valid_vamm,
    valid_trader,
    require_vamm-ok s vamm el listed,
    ec,
    checked_mul-ok q leverage fits,
    checked_div-ok (q * leverage) config.decimals pos,
    takes,
    priced,
    lt→ltb (q * leverage / config.decimals) worth less,
  )

  pub open_position-reduced :
      (u : Uint128)
      → IsUint128 u
      → (let swap = swap_of vamm trader side q leverage (q * leverage / config.decimals) in
          is_increase (current host env s swap).direction side ≡ false
          → query_vamm_output_price host vamm
              (current host env s swap).direction
              (current host env s swap).size
            ≡ ok worth
          → open_position u api host s env info vamm trader side q leverage
            ≡ ok (
              record s { tmp_swap = some swap },
              record {
                messages = reducing_msg swap (q * leverage / config.decimals) ∷ [];
                attributes = ("action", "open_position") ∷ [];
              },
            ))
  open_position-reduced u laws takes priced =
      rw (eq-documented u laws) (reduced-documented takes priced)

-- The message of an order that is worth the whole position or more.
abbrev pub reversing_msg : String → Position → SubMsg Payload
reversing_msg vamm position = record {
  contract_addr = vamm;
  msg = to_vamm (
      Vamm.ExecuteMsg.swap_output (side_to_direction (direction_to_side position.direction))
        position.size);
  id = swap_reverse_reply_id;
  reply_on = always;
}

module _ (api : Api) (host : Imports) (s : Storage) (env : Env) (info : MessageInfo)
    (vamm trader : String) (side : Side) (q leverage worth : ℕ) {config : Config} {list : VammList}
    (valid_vamm : api.addr_validate vamm ≡ ok vamm)
    (valid_trader : api.addr_validate trader ≡ ok trader) (ec : s.config ≡ some config)
    (el : s.vamm_list ≡ some list) (listed : is_vamm list vamm ≡ true)
    (fits : q * leverage < 2 ^ 128) (pos : 0 < config.decimals)
    (whole : worth ≤ q * leverage / config.decimals) where
  reversed-documented :
      (let swap = swap_of vamm trader side q leverage (q * leverage / config.decimals) in
        is_increase (current host env s swap).direction side ≡ false
        → query_vamm_output_price host vamm
            (current host env s swap).direction
            (current host env s swap).size
          ≡ ok worth
        → open_position documented api host s env info vamm trader side q leverage
          ≡ ok (
            record s { tmp_swap = some swap },
            record {
              messages = reversing_msg vamm (current host env s swap) ∷ [];
              attributes = ("action", "open_position") ∷ [];
            },
          ))
  unfolding open_position open_reverse_position swap_output
  reversed-documented takes priced =
      let not_less : ltb (q * leverage / config.decimals) worth ≡ false = ground arith in
      simp (
        valid_vamm,
        valid_trader,
        require_vamm-ok s vamm el listed,
        ec,
        checked_mul-ok q leverage fits,
        checked_div-ok (q * leverage) config.decimals pos,
        takes,
        priced,
        not_less,
      )

  pub open_position-reversed :
      (u : Uint128)
      → IsUint128 u
      → (let swap = swap_of vamm trader side q leverage (q * leverage / config.decimals) in
          is_increase (current host env s swap).direction side ≡ false
          → query_vamm_output_price host vamm
              (current host env s swap).direction
              (current host env s swap).size
            ≡ ok worth
          → open_position u api host s env info vamm trader side q leverage
            ≡ ok (
              record s { tmp_swap = some swap },
              record {
                messages = reversing_msg vamm (current host env s swap) ∷ [];
                attributes = ("action", "open_position") ∷ [];
              },
            ))
  open_position-reversed u laws takes priced =
      rw (eq-documented u laws) (reversed-documented takes priced)
