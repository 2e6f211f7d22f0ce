-- ===== src/World/Turning.antt =====
-- The two rounds of a reversal: the closing swap with reverse_position_reply of reply.rs, and the
-- swap that opens a short position with increase_position_reply and the payment.
use mrgnd_perpetuals.Base.{
  ℕ, ◌+◌, ◌*◌, ◌/◌, ◌^◌, ◌<◌, ◌≡◌, refl, String, eq_iff, ◌==◌, false, none, some, [], ◌∷◌, ok,
  arith,
}
use mrgnd_perpetuals.Cosmwasm.{IsUint128}
use mrgnd_perpetuals.Perp.Messages.{transfer_from}
use mrgnd_perpetuals.Perp.Engine.{sell}
use mrgnd_perpetuals.Perp.Vamm.{add_to_amm}
use mrgnd_perpetuals.Vamm.State.{State, Config as VammConfig, counter_of, Storage as VammStorage}
use mrgnd_perpetuals.Vamm.Contract.{execute as execute_vamm}
use mrgnd_perpetuals.Vamm.Handle.{swap_response}
use mrgnd_perpetuals.Vamm.Reserves.{recorded}
use native.Mathlib.Nat.{div-mul-le_self}
use mrgnd_perpetuals.Base.Division.{mul-ceil_div-lt}
use mrgnd_perpetuals.Vamm.Exact.{base_added, swap_output-add}
use mrgnd_perpetuals.Engine.State.{Config, Position, Swap, position_key}
use mrgnd_perpetuals.Engine.Utils.{side_to_direction, direction_to_side}
use mrgnd_perpetuals.Engine.Contract.{reply, success}
use mrgnd_perpetuals.Engine.Positions.{
  stored, margin_of, collateral_msg, distance, emptied, reopening_msg,
}
use mrgnd_perpetuals.Engine.Replies.{increase_position_reply_lem, reverse_position_reply_lem}
use mrgnd_perpetuals.Engine.Ordering.{reversing_msg}
use mrgnd_perpetuals.World.State.{Chain, Block, World, env_of, info_of, save_vamm, imports_of}
use mrgnd_perpetuals.World.Dispatch.{
  dispatch, run_message, run_reply, run_payload, run_vamm, events_of,
}
use mrgnd_perpetuals.World.Settled.{dispatch_after-one}
use mrgnd_perpetuals.World.Opening.{
  asking, held, bigger, parse_swap-events_of, dispatch-collateral_msg,
}
use mrgnd_perpetuals.World.Selling.{taken, worth_of, sold_to, offer, run_payload-sell}

-- The world after the closing swap, and after the engine's reply to it.
abbrev pub bought_from : {T : Type 0} → Block → World T → Swap → VammStorage → State → ℕ → World T
bought_from b w swap s st size = record (asking w swap) {
  vamms = save_vamm w.vamms swap.vamm (recorded s (env_of b swap.vamm) (base_added st size));
}

-- What is left of the order.
abbrev pub remainder_of : Swap → State → Position → Swap
remainder_of swap st position = record swap {
  open_notional = distance swap.open_notional (worth_of st position.size);
}

abbrev pub closed :
    {T : Type 0} → Chain T → Block → World T → Swap → VammStorage → State → Position → World T
closed c b w swap s st position = record (bought_from b w swap s st position.size) {
  engine =
      stored (imports_of c b w.vamms) w.engine (emptied (env_of b c.engine_address) position) none;
}

-- The world with the short position, before the payment.
abbrev pub opened :
    {T : Type 0}
    → Chain T
    → Block
    → World T
    → Config
    → Swap
    → VammStorage
    → State
    → Position
    → World T
opened c b w config swap s st position = record (sold_to b w swap s st) {
  engine =
      stored (imports_of c b w.vamms) w.engine (bigger config swap position (taken st swap)) none;
}

module _ {T : Type 0} (c : Chain T) (b : Block) (laws : IsUint128 c.uint128)
    (round_trip : (n : ℕ) → n < 2 ^ 128 → c.api.from_str (c.api.to_string n) ≡ ok n) (w : World T)
    (swap : Swap) {config : Config} {s : VammStorage} {st : State} {vamm_config : VammConfig}
    (ec : w.engine.config ≡ some config) (es : s.state ≡ some st)
    (evc : s.config ≡ some vamm_config) (found : w.vamms swap.vamm ≡ some s)
    (nine : vamm_config.decimals ≡ 1000000000)
    (fits : st.quote_asset_reserve * st.base_asset_reserve < 2 ^ 128)
    (counts : counter_of s + 1 < 2 ^ 64) where
  run_payload-close :
      (position : Position)
      → position.direction ≡ add_to_amm
      → 0 < st.base_asset_reserve + position.size
      → st.base_asset_reserve + position.size < 2 ^ 128
      → run_payload c b (asking w swap) swap.vamm (reversing_msg swap.vamm position).msg ≡ (
        bought_from b w swap s st position.size,
        success (
            events_of c b swap.vamm
              (swap_response c.api "swap_output" position.size (worth_of st position.size))),
      )
  unfolding run_payload run_vamm execute_vamm side_to_direction direction_to_side
  run_payload-close position long pos room = simp (
    found,
    long,
    swap_output-add c.uint128 laws c.api s (env_of b swap.vamm) (info_of c.engine_address) es evc
        nine fits counts position.size pos room,
  )

  -- The reply that goes on with the rest of the order.
  pub run_message-close :
      (position : Position)
      → held c b w swap ≡ position
      → position.direction ≡ add_to_amm
      → 0 < st.base_asset_reserve + position.size
      → st.base_asset_reserve + position.size < 2 ^ 128
      → st.quote_asset_reserve < 2 ^ 128
      → 0 < swap.leverage
      → (distance swap.open_notional (worth_of st position.size) / swap.leverage == 0) ≡ false
      → run_message c b (asking w swap) (reversing_msg swap.vamm position)
        ≡ ok (
          asking (closed c b w swap s st position) (remainder_of swap st position),
          reopening_msg swap (distance swap.open_notional (worth_of st position.size)) ∷ [],
        )
  unfolding run_message run_reply reply
  run_message-close position same long pos room small leverage some_left =
      let replied =
        reverse_position_reply_lem c.uint128 laws
          (imports_of c b (bought_from b w swap s st position.size).vamms) (asking w swap).engine
          (env_of b c.engine_address) position.size (worth_of st position.size) ec refl leverage in
      simp (
        run_payload-close position long pos room,
        parse_swap-events_of c b round_trip swap.vamm "swap_output" position.size
            (worth_of st position.size) (omega (arith, room)) (omega arith),
        replied,
        same,
        some_left,
      )

  -- The reply to the swap that opens the short position.
  run_message-short :
      swap.side ≡ sell
      → swap.open_notional < st.quote_asset_reserve
      → st.quote_asset_reserve < 2 ^ 128
      → st.base_asset_reserve + taken st swap < 2 ^ 128
      → (held c b w swap).size + taken st swap < 2 ^ 128
      → (held c b w swap).notional + swap.open_notional < 2 ^ 128
      → ((held c b w swap).notional + swap.open_notional) * config.decimals < 2 ^ 128
      → 0 < swap.leverage
      → run_message c b (asking w swap) (reopening_msg swap swap.open_notional)
        ≡ ok (
          opened c b w config swap s st (held c b w swap),
          collateral_msg config swap.trader c.engine_address
                (margin_of config swap ((held c b w swap).notional + swap.open_notional))
              ∷ [],
        )
  unfolding run_message run_reply reply
  run_message-short sells less small room sizes notionals scaled leverage =
      let replied =
        increase_position_reply_lem c.uint128 laws (imports_of c b (sold_to b w swap s st).vamms)
          (asking w swap).engine (env_of b c.engine_address) swap.open_notional (taken st swap) ec
          refl sizes notionals scaled leverage in
      simp (
        run_payload-sell c b laws round_trip w swap ec es evc found nine fits counts sells less
            room,
        parse_swap-events_of c b round_trip swap.vamm "swap_input" swap.open_notional
            (taken st swap) (omega arith) (omega (arith, room)),
        replied,
      )

  -- That swap and the payment.
  pub dispatch-short :
      (old : Position) (t : T)
      → held c b w swap ≡ old
      → swap.side ≡ sell
      → swap.open_notional < st.quote_asset_reserve
      → st.quote_asset_reserve < 2 ^ 128
      → st.base_asset_reserve + taken st swap < 2 ^ 128
      → old.size + taken st swap < 2 ^ 128
      → old.notional + swap.open_notional < 2 ^ 128
      → (old.notional + swap.open_notional) * config.decimals < 2 ^ 128
      → 0 < swap.leverage
      → c.execute_token w.token c.engine_address (
          transfer_from swap.trader c.engine_address
            (margin_of config swap (old.notional + swap.open_notional)))
        ≡ ok t
      → dispatch c b 2 (asking w swap) (reopening_msg swap swap.open_notional ∷ [])
        ≡ some (ok (record (opened c b w config swap s st old) { token = t }))
  dispatch-short old t same sells less small room sizes notionals scaled leverage paid =
      simp
        (
          dispatch_after-one c b 1 (asking w swap) (reopening_msg swap swap.open_notional),
          run_message-short sells less small room (rw same sizes) (rw same notionals)
              (rw same scaled) leverage,
          same,
        )
        (dispatch-collateral_msg c b (opened c b w config swap s st old) 0 config swap.trader
          c.engine_address (margin_of config swap (old.notional + swap.open_notional)) t paid)

module _ {T : Type 0} (c : Chain T) (b : Block) (w : World T) (swap : Swap) (s : VammStorage)
    (st : State) (position : Position) (on_vamm : position.vamm ≡ swap.vamm)
    (by_trader : position.trader ≡ swap.trader) where
  -- The position that the second reply finds.
  pub held-closed :
      held c b (closed c b w swap s st position) (remainder_of swap st position)
      ≡ emptied (env_of b c.engine_address) position
  held-closed =
      let key = position_key (imports_of c b w.vamms) swap.vamm swap.trader in
      rw (on_vamm, by_trader, (eq_iff key key).1 refl) refl

-- What is left of a seller's order, and the market and the world between the two swaps.
abbrev pub left_of : Config → String → String → ℕ → ℕ → State → Position → Swap
left_of config vamm trader q leverage st position =
    remainder_of (offer config vamm trader q leverage) st position

abbrev pub turned :
    {T : Type 0}
    → Chain T
    → Block
    → World T
    → Config
    → Swap
    → VammStorage
    → State
    → Position
    → World T
turned c b w config swap s st position =
    opened c b (closed c b w swap s st position) config (remainder_of swap st position)
      (recorded s (env_of b swap.vamm) (base_added st position.size)) (base_added st position.size)
      (emptied (env_of b c.engine_address) position)

pub base_added-fits :
    (st : State) (size : ℕ)
    → 0 < st.base_asset_reserve + size
    → st.quote_asset_reserve * st.base_asset_reserve + st.base_asset_reserve + size < 2 ^ 128
    → (base_added st size).quote_asset_reserve * (base_added st size).base_asset_reserve < 2 ^ 128
base_added-fits st size pos room =
    let n = st.quote_asset_reserve * st.base_asset_reserve in
    omega (
      arith,
      mul-ceil_div-lt (n / 1000000000 * 1000000000) (st.base_asset_reserve + size) pos,
      div-mul-le_self n 1000000000,
    )
