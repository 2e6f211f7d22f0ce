-- ===== src/World/Opening.antt =====
-- A transaction that buys more into a position: open_position of handle.rs, the vAMM's swap,
-- increase_position_reply of reply.rs, and the payment.
use mrgnd_perpetuals.Base.{
  ℕ, suc, ◌+◌, ◌-◌, ◌*◌, ◌/◌, ◌^◌, ◌<◌, ◌≡◌, refl, String, true, none, some, [], ◌∷◌, ok, arith,
}
use mrgnd_perpetuals.Cosmwasm.{IsUint128}
use mrgnd_perpetuals.Perp.Messages.{transfer_from}
use mrgnd_perpetuals.Perp.Engine.{ExecuteMsg, buy}
use mrgnd_perpetuals.Vamm.State.{State, Config as VammConfig, counter_of, Storage as VammStorage}
use mrgnd_perpetuals.Vamm.Contract.{execute as execute_vamm}
use mrgnd_perpetuals.Vamm.Handle.{swap_response}
use mrgnd_perpetuals.Vamm.Reserves.{recorded}
use mrgnd_perpetuals.Vamm.Exact.{left_at, quote_added, swap_input-add}
use mrgnd_perpetuals.Engine.State.{Config, Position, Swap, VammList, is_vamm}
use mrgnd_perpetuals.Engine.Utils.{side_to_direction}
use mrgnd_perpetuals.Engine.Handle.{is_increase}
use mrgnd_perpetuals.Engine.Contract.{
  execute, reply, success, parse_swap, find_event, find_attribute,
}
use mrgnd_perpetuals.Engine.Positions.{current, stored, margin_of, collateral_msg, reopening_msg}
use mrgnd_perpetuals.Engine.Replies.{increase_position_reply_lem}
use mrgnd_perpetuals.Engine.Ordering.{swap_of, open_position-ordered}
use mrgnd_perpetuals.World.State.{Chain, Block, World, env_of, info_of, save_vamm, imports_of}
use mrgnd_perpetuals.World.Dispatch.{
  dispatch, transaction, run_message, run_reply, run_payload, run_vamm, events_of,
}
use mrgnd_perpetuals.World.Settled.{dispatch_after-one}

-- The pending swap, the position that it grows, and the position that it makes of that.
abbrev pub bigger : Config → Swap → Position → ℕ → Position
bigger config swap position bought = record position {
  size = position.size + bought;
  notional = position.notional + swap.open_notional;
  direction = side_to_direction swap.side;
  margin = margin_of config swap (position.notional + swap.open_notional);
}

module _ {T : Type 0} (c : Chain T) (b : Block)
    (round_trip : (n : ℕ) → n < 2 ^ 128 → c.api.from_str (c.api.to_string n) ≡ ok n) where
  pub parse_swap-events_of :
      (contract action : String) (input output : ℕ)
      → input < 2 ^ 128
      → output < 2 ^ 128
      → parse_swap c.api (events_of c b contract (swap_response c.api action input output))
        ≡ ok (input, output)
  unfolding parse_swap find_event find_attribute
  parse_swap-events_of contract action input output small_input small_output =
      rw (round_trip input small_input, round_trip output small_output) refl

-- The world that waits for the vAMM's swap, and the one after it.
abbrev pub asking : {T : Type 0} → World T → Swap → World T
asking w swap = record w { engine = record w.engine { tmp_swap = some swap } }

abbrev pub swapped : {T : Type 0} → Block → World T → Swap → VammStorage → State → World T
swapped b w swap s st = record (asking w swap) {
  vamms =
      save_vamm w.vamms swap.vamm
        (recorded s (env_of b swap.vamm) (quote_added st swap.open_notional));
}

-- What the vAMM pays for the order.
abbrev pub bought : State → Swap → ℕ
bought st swap = st.base_asset_reserve - left_at st (st.quote_asset_reserve + swap.open_notional)

-- The position before the order.
abbrev pub held : {T : Type 0} → Chain T → Block → World T → Swap → Position
held c b w swap = current (imports_of c b w.vamms) (env_of b c.engine_address) w.engine swap

-- The world with the bigger position, before the payment.
abbrev pub grown :
    {T : Type 0} → Chain T → Block → World T → Config → Swap → VammStorage → State → World T
grown c b w config swap s st = record (swapped b w swap s st) {
  engine =
      stored (imports_of c b w.vamms) w.engine
        (bigger config swap (held c b w swap) (bought st swap)) none;
}

module _ {T : Type 0} (c : Chain T) (b : Block) (laws : IsUint128 c.uint128)
    (round_trip : (n : ℕ) → n < 2 ^ 128 → c.api.from_str (c.api.to_string n) ≡ ok n) (w : World T)
    (swap : Swap) {config : Config} {s : VammStorage} {st : State} {vamm_config : VammConfig}
    (ec : w.engine.config ≡ some config) (es : s.state ≡ some st)
    (evc : s.config ≡ some vamm_config) (found : w.vamms swap.vamm ≡ some s)
    (nine : vamm_config.decimals ≡ 1000000000)
    (fits : st.quote_asset_reserve * st.base_asset_reserve < 2 ^ 128)
    (counts : counter_of s + 1 < 2 ^ 64) (buys : swap.side ≡ buy)
    (pos : 0 < st.quote_asset_reserve + swap.open_notional)
    (room : st.quote_asset_reserve + swap.open_notional < 2 ^ 128) where
  run_payload-buy :
      run_payload c b (asking w swap) swap.vamm (reopening_msg swap swap.open_notional).msg ≡ (
        swapped b w swap s st,
        success (
            events_of c b swap.vamm
              (swap_response c.api "swap_input" swap.open_notional (bought st swap))),
      )
  unfolding run_payload run_vamm execute_vamm side_to_direction
  run_payload-buy =
      let e =
        swap_input-add c.uint128 laws c.api s (env_of b swap.vamm) (info_of c.engine_address) es evc
          nine fits counts swap.open_notional pos room in
      simp (found, buys, e)

  run_message-buy :
      (held c b w swap).size + bought st swap < 2 ^ 128
      → (held c b w swap).notional + swap.open_notional < 2 ^ 128
      → ((held c b w swap).notional + swap.open_notional) * config.decimals < 2 ^ 128
      → 0 < swap.leverage
      → run_message c b (asking w swap) (reopening_msg swap swap.open_notional)
        ≡ ok (
          grown c b w config swap s st,
          collateral_msg config swap.trader c.engine_address
                (margin_of config swap ((held c b w swap).notional + swap.open_notional))
              ∷ [],
        )
  unfolding run_message run_reply reply
  run_message-buy sizes notionals scaled leverage =
      let replied =
        increase_position_reply_lem c.uint128 laws (imports_of c b (swapped b w swap s st).vamms)
          (asking w swap).engine (env_of b c.engine_address) swap.open_notional (bought st swap) ec
          refl sizes notionals scaled leverage in
      simp (
        run_payload-buy,
        parse_swap-events_of c b round_trip swap.vamm "swap_input" swap.open_notional
            (bought st swap) (omega (arith, room)) (omega (arith, sizes)),
        replied,
      )

module _ {T : Type 0} (c : Chain T) (b : Block) (w : World T) where
  -- A payment that the token makes is the last message of a transaction.
  pub dispatch-collateral_msg :
      (fuel : ℕ) (config : Config) (owner receiver : String) (amount : ℕ) (t : T)
      → c.execute_token w.token c.engine_address (transfer_from owner receiver amount) ≡ ok t
      → dispatch c b (suc fuel) w (collateral_msg config owner receiver amount ∷ [])
        ≡ some (ok (record w { token = t }))
  unfolding dispatch run_message run_payload run_reply
  dispatch-collateral_msg fuel config owner receiver amount t paid =
      rw (dispatch_after-one c b fuel w (collateral_msg config owner receiver amount), paid) refl

-- The order of a buyer.
abbrev pub bid : Config → String → String → ℕ → ℕ → Swap
bid config vamm trader q leverage =
    swap_of vamm trader buy q leverage (q * leverage / config.decimals)

-- What the buyer pays.
abbrev pub due : {T : Type 0} → Chain T → Block → World T → Config → Swap → ℕ
due c b w config swap = margin_of config swap ((held c b w swap).notional + swap.open_notional)

module _ {T : Type 0} (c : Chain T) (b : Block) (laws : IsUint128 c.uint128)
    (round_trip : (n : ℕ) → n < 2 ^ 128 → c.api.from_str (c.api.to_string n) ≡ ok n) (w : World T)
    (vamm trader : String) (q leverage : ℕ) {config : Config} {list : VammList} {s : VammStorage}
    {st : State} {vamm_config : VammConfig} {t : T}
    (valid_vamm : c.api.addr_validate vamm ≡ ok vamm)
    (valid_trader : c.api.addr_validate trader ≡ ok trader) (ec : w.engine.config ≡ some config)
    (el : w.engine.vamm_list ≡ some list) (listed : is_vamm list vamm ≡ true)
    (found : w.vamms vamm ≡ some s) (es : s.state ≡ some st) (evc : s.config ≡ some vamm_config)
    (nine : vamm_config.decimals ≡ 1000000000)
    (fits : st.quote_asset_reserve * st.base_asset_reserve < 2 ^ 128)
    (counts : counter_of s + 1 < 2 ^ 64) where
  -- A transaction of open_position that buys, in a direction that adds to the trader's position,
  -- succeeds within three messages, where the addresses are valid and the vAMM registered, the
  -- market has nine decimals, reserves whose product fits 128 bits and a counter that has room,
  -- the leverage, the engine's decimals and the new quote reserve are positive, the sums and
  -- products fit 128 bits, `from_str` undoes `to_string` on numbers of 128 bits, and the token
  -- accepts the payment. The vAMM then has the reserves of the swap with a snapshot of them, the
  -- position has grown by the base asset bought and by the order's notional, its margin is the
  -- whole new notional over the leverage, no swap is pending, the token is as that payment of
  -- the margin by the trader to the engine leaves it, and nothing else has changed.
  pub transaction-open_position :
      q * leverage < 2 ^ 128
      → 0 < config.decimals
      → 0 < leverage
      → is_increase (held c b w (bid config vamm trader q leverage)).direction buy ≡ true
      → 0 < st.quote_asset_reserve + q * leverage / config.decimals
      → st.quote_asset_reserve + q * leverage / config.decimals < 2 ^ 128
      → (held c b w (bid config vamm trader q leverage)).size
          + bought st (bid config vamm trader q leverage)
        < 2 ^ 128
      → (held c b w (bid config vamm trader q leverage)).notional + q * leverage / config.decimals
        < 2 ^ 128
      → ((held c b w (bid config vamm trader q leverage)).notional + q * leverage / config.decimals)
          * config.decimals
        < 2 ^ 128
      → c.execute_token w.token c.engine_address (
          transfer_from trader c.engine_address
            (due c b w config (bid config vamm trader q leverage)))
        ≡ ok t
      → transaction c b 3 w trader (ExecuteMsg.open_position vamm buy q leverage)
        ≡ some (
            ok (record (grown c b w config (bid config vamm trader q leverage) s st) { token = t }))
  unfolding transaction execute
  transaction-open_position small pos leveraged adds some_quote room sizes notionals scaled paid =
      let swap = bid config vamm trader q leverage in
      simp
        (
          open_position-ordered c.api (imports_of c b w.vamms) w.engine (env_of b c.engine_address)
              (info_of trader) vamm trader buy q leverage valid_vamm valid_trader ec el listed small
              pos c.uint128 laws adds,
          dispatch_after-one c b 2 (asking w swap) (reopening_msg swap swap.open_notional),
          run_message-buy c b laws round_trip w swap ec es evc found nine fits counts refl
              some_quote room sizes notionals scaled leveraged,
        )
        (dispatch-collateral_msg c b (grown c b w config swap s st) 1 config trader c.engine_address
          (due c b w config swap) t paid)
