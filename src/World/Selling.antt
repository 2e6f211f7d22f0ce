-- ===== src/World/Selling.antt =====
-- A transaction that sells a part of a long position: open_position of handle.rs with its query,
-- the vAMM's swap, and decrease_position_reply of reply.rs.
use mrgnd_perpetuals.Base.{
  ℕ, ◌+◌, ◌-◌, ◌*◌, ◌/◌, ◌^◌, ◌≤◌, ◌<◌, ◌≡◌, refl, String, true, false, none, some, [], ok, arith,
}
use mrgnd_perpetuals.Cosmwasm.{Uint128, IsUint128, eq-documented, Api, Env}
use mrgnd_perpetuals.Perp.Engine.{ExecuteMsg, sell}
use mrgnd_perpetuals.Perp.Vamm.{add_to_amm}
use mrgnd_perpetuals.Vamm.State.{State, Config as VammConfig, counter_of, Storage as VammStorage}
use mrgnd_perpetuals.Vamm.Query.{query_output_price}
use mrgnd_perpetuals.Vamm.Contract.{query, execute as execute_vamm}
use mrgnd_perpetuals.Vamm.Handle.{swap_response}
use mrgnd_perpetuals.Vamm.Reserves.{recorded}
use mrgnd_perpetuals.Vamm.Exact.{left_at, get_output-add}
use mrgnd_perpetuals.Vamm.Removing.{quote_removed, taken_at, swap_input-remove}
use mrgnd_perpetuals.Engine.State.{Config, Position, Swap, VammList, is_vamm, position_key}
use mrgnd_perpetuals.Engine.Querier.{query_vamm_output_price}
use mrgnd_perpetuals.Engine.Utils.{side_to_direction}
use mrgnd_perpetuals.Engine.Handle.{is_increase}
use mrgnd_perpetuals.Engine.Contract.{execute, reply, success}
use mrgnd_perpetuals.Engine.Positions.{stored}
use mrgnd_perpetuals.Engine.Replies.{decrease_position_reply_lem}
use mrgnd_perpetuals.Engine.Ordering.{swap_of, reducing_msg, open_position-reduced}
use mrgnd_perpetuals.World.State.{
  Chain, Block, World, env_of, info_of, save_vamm, imports_of, query_vamm,
}
use mrgnd_perpetuals.World.Dispatch.{
  dispatch, transaction, run_message, run_reply, run_payload, run_vamm, events_of,
}
use mrgnd_perpetuals.World.Settled.{dispatch_after-one}
use mrgnd_perpetuals.World.Opening.{asking, held, parse_swap-events_of}

-- What the vAMM takes for the order, and the whole position's worth in the quote asset.
abbrev pub taken : State → Swap → ℕ
taken st swap = taken_at st (st.quote_asset_reserve - swap.open_notional) st.base_asset_reserve

abbrev pub worth_of : State → ℕ → ℕ
worth_of st size = st.quote_asset_reserve - left_at st (st.base_asset_reserve + size)

abbrev pub smaller : Swap → Position → ℕ → Position
smaller swap position sold = record position {
  size = position.size - sold;
  notional = position.notional - swap.open_notional;
}

-- The world after the vAMM's swap, and at the end.
abbrev pub sold_to : {T : Type 0} → Block → World T → Swap → VammStorage → State → World T
sold_to b w swap s st = record (asking w swap) {
  vamms =
      save_vamm w.vamms swap.vamm
        (recorded s (env_of b swap.vamm) (quote_removed st swap.open_notional));
}

abbrev pub reduced : {T : Type 0} → Chain T → Block → World T → Swap → VammStorage → State → World T
reduced c b w swap s st = record (sold_to b w swap s st) {
  engine =
      stored (imports_of c b w.vamms) w.engine (smaller swap (held c b w swap) (taken st swap))
        none;
}

module _ (u : Uint128) (laws : IsUint128 u) (api : Api) (s : VammStorage) (env : Env) {st : State}
    {vamm_config : VammConfig} (es : s.state ≡ some st) (evc : s.config ≡ some vamm_config)
    (nine : vamm_config.decimals ≡ 1000000000)
    (fits : st.quote_asset_reserve * st.base_asset_reserve < 2 ^ 128) where
  query_output_price-add :
      (size : ℕ)
      → 0 < st.base_asset_reserve + size
      → st.base_asset_reserve + size < 2 ^ 128
      → query_output_price u s add_to_amm size ≡ ok (worth_of st size)
  unfolding query_output_price
  query_output_price-add size pos room =
      rw (eq-documented u laws, get_output-add s es evc nine fits size pos room) refl

module _ {T : Type 0} (c : Chain T) (b : Block) (laws : IsUint128 c.uint128)
    (round_trip : (n : ℕ) → n < 2 ^ 128 → c.api.from_str (c.api.to_string n) ≡ ok n) (w : World T)
    (swap : Swap) {config : Config} {s : VammStorage} {st : State} {vamm_config : VammConfig}
    (ec : w.engine.config ≡ some config) (es : s.state ≡ some st)
    (evc : s.config ≡ some vamm_config) (found : w.vamms swap.vamm ≡ some s)
    (nine : vamm_config.decimals ≡ 1000000000)
    (fits : st.quote_asset_reserve * st.base_asset_reserve < 2 ^ 128)
    (counts : counter_of s + 1 < 2 ^ 64) where
  -- The engine's query of what the position is worth.
  pub priced :
      (held c b w swap).direction ≡ add_to_amm
      → 0 < st.base_asset_reserve + (held c b w swap).size
      → st.base_asset_reserve + (held c b w swap).size < 2 ^ 128
      → query_vamm_output_price
          (imports_of c b w.vamms)
          swap.vamm
          (held c b w swap).direction
          (held c b w swap).size
        ≡ ok (worth_of st (held c b w swap).size)
  unfolding query_vamm_output_price query_vamm query
  priced long pos room = simp (
    found,
    long,
    query_output_price-add c.uint128 laws c.api s (env_of b swap.vamm) es evc nine fits
        (held c b w swap).size pos room,
  )

  pub run_payload-sell :
      swap.side ≡ sell
      → swap.open_notional < st.quote_asset_reserve
      → st.base_asset_reserve + taken st swap < 2 ^ 128
      → run_payload c b (asking w swap) swap.vamm (reducing_msg swap swap.open_notional).msg ≡ (
        sold_to b w swap s st,
        success (
            events_of c b swap.vamm
              (swap_response c.api "swap_input" swap.open_notional (taken st swap))),
      )
  unfolding run_payload run_vamm execute_vamm side_to_direction
  run_payload-sell sells less room = simp (
    found,
    sells,
    swap_input-remove c.uint128 laws c.api s (env_of b swap.vamm) (info_of c.engine_address) es evc
        nine fits counts swap.open_notional less room,
  )

  run_message-sell :
      swap.side ≡ sell
      → swap.open_notional < st.quote_asset_reserve
      → st.quote_asset_reserve < 2 ^ 128
      → st.base_asset_reserve + taken st swap < 2 ^ 128
      → taken st swap ≤ (held c b w swap).size
      → swap.open_notional ≤ (held c b w swap).notional
      → run_message c b (asking w swap) (reducing_msg swap swap.open_notional)
        ≡ ok (reduced c b w swap s st, [])
  unfolding run_message run_reply reply
  run_message-sell sells less small room sizes notionals = simp (
    run_payload-sell sells less room,
    parse_swap-events_of c b round_trip swap.vamm "swap_input" swap.open_notional (taken st swap)
        (omega arith) (omega (arith, room)),
    decrease_position_reply_lem c.uint128 laws (imports_of c b (sold_to b w swap s st).vamms)
        (asking w swap).engine (env_of b c.engine_address) swap.open_notional (taken st swap) ec
        refl sizes notionals,
  )

-- The order of a seller.
abbrev pub offer : Config → String → String → ℕ → ℕ → Swap
offer config vamm trader q leverage =
    swap_of vamm trader sell q leverage (q * leverage / config.decimals)

module _ {T : Type 0} (c : Chain T) (b : Block) (laws : IsUint128 c.uint128)
    (round_trip : (n : ℕ) → n < 2 ^ 128 → c.api.from_str (c.api.to_string n) ≡ ok n) (w : World T)
    (vamm trader : String) (q leverage : ℕ) {config : Config} {list : VammList} {s : VammStorage}
    {st : State} {vamm_config : VammConfig} {position : Position}
    (valid_vamm : c.api.addr_validate vamm ≡ ok vamm)
    (valid_trader : c.api.addr_validate trader ≡ ok trader) (ec : w.engine.config ≡ some config)
    (el : w.engine.vamm_list ≡ some list) (listed : is_vamm list vamm ≡ true)
    (found : w.vamms vamm ≡ some s) (es : s.state ≡ some st) (evc : s.config ≡ some vamm_config)
    (nine : vamm_config.decimals ≡ 1000000000)
    (fits : st.quote_asset_reserve * st.base_asset_reserve < 2 ^ 128)
    (counts : counter_of s + 1 < 2 ^ 64)
    (has : w.engine.position (position_key (imports_of c b w.vamms) vamm trader) ≡ some position)
    (long : position.direction ≡ add_to_amm) where
  -- A transaction of open_position that sells less than a stored long position is worth succeeds
  -- within three messages, where the addresses are valid and the vAMM registered, the market has
  -- nine decimals, reserves whose product fits 128 bits and a counter that has room, the
  -- engine's decimals and the base reserve with the position's size are positive, the sums and
  -- products fit 128 bits, the position covers the order's notional and the base asset that the
  -- vAMM takes for it, and `from_str` undoes `to_string` on numbers of 128 bits. The vAMM then
  -- has the reserves of the removing swap with a snapshot of them, the position has shrunk by
  -- that base asset and that notional, its margin is as it was, no swap is pending, nothing is
  -- paid, and nothing else has changed.
  pub transaction-open_position_sell :
      q * leverage < 2 ^ 128
      → 0 < config.decimals
      → 0 < st.base_asset_reserve + position.size
      → st.base_asset_reserve + position.size < 2 ^ 128
      → q * leverage / config.decimals < worth_of st position.size
      → st.quote_asset_reserve < 2 ^ 128
      → st.base_asset_reserve + taken st (offer config vamm trader q leverage) < 2 ^ 128
      → taken st (offer config vamm trader q leverage) ≤ position.size
      → q * leverage / config.decimals ≤ position.notional
      → transaction c b 3 w trader (ExecuteMsg.open_position vamm sell q leverage)
        ≡ some (ok (reduced c b w (offer config vamm trader q leverage) s st))
  unfolding transaction execute dispatch is_increase
  transaction-open_position_sell small pos some_base base_room part quote_fits room sizes
        notionals =
      let swap = offer config vamm trader q leverage in
      let takes : is_increase (held c b w swap).direction sell ≡ false = rw (has, long) refl in
      let price =
        priced c b laws round_trip w swap ec es evc found nine fits counts (rw has long)
          (rw has some_base) (rw has base_room) in
      simp (
        open_position-reduced c.api (imports_of c b w.vamms) w.engine (env_of b c.engine_address)
            (info_of trader) vamm trader sell q leverage (worth_of st (held c b w swap).size)
            valid_vamm valid_trader ec el listed small pos (rw has part) c.uint128 laws takes price,
        dispatch_after-one c b 2 (asking w swap) (reducing_msg swap swap.open_notional),
        run_message-sell c b laws round_trip w swap ec es evc found nine fits counts refl
            (omega (arith, part)) quote_fits room (rw has sizes) (rw has notionals),
      )
