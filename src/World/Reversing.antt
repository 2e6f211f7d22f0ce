-- ===== src/World/Reversing.antt =====
-- A transaction that sells more than a long position is worth: open_position of handle.rs, the
-- vAMM's swap that closes the position, reverse_position_reply of reply.rs, the swap that opens a
-- short one, increase_position_reply, and the payment.
use mrgnd_perpetuals.Base.{
  ℕ, ◌+◌, ◌*◌, ◌/◌, ◌^◌, ◌≤◌, ◌<◌, ◌≡◌, refl, String, eq_iff, true, false, some, ok, arith,
}
use mrgnd_perpetuals.Cosmwasm.{IsUint128}
use mrgnd_perpetuals.Perp.Messages.{transfer_from}
use mrgnd_perpetuals.Perp.Engine.{ExecuteMsg, sell}
use mrgnd_perpetuals.Perp.Vamm.{add_to_amm}
use mrgnd_perpetuals.Vamm.State.{State, Config as VammConfig, counter_of, Storage as VammStorage}
use mrgnd_perpetuals.Vamm.Reserves.{recorded}
use mrgnd_perpetuals.Vamm.Exact.{left_at-le-quote, base_added}
use mrgnd_perpetuals.Engine.State.{Config, Position, VammList, is_vamm, position_key}
use mrgnd_perpetuals.Engine.Handle.{is_increase}
use mrgnd_perpetuals.Engine.Contract.{execute}
use mrgnd_perpetuals.Engine.Positions.{margin_of, emptied}
use mrgnd_perpetuals.Engine.Ordering.{reversing_msg, open_position-reversed}
use mrgnd_perpetuals.World.State.{Chain, Block, World, env_of, info_of, imports_of}
use mrgnd_perpetuals.World.Dispatch.{dispatch, transaction}
use mrgnd_perpetuals.World.Settled.{dispatch_after-one}
use mrgnd_perpetuals.World.Opening.{asking, held}
use mrgnd_perpetuals.World.Selling.{taken, worth_of, offer, priced}
use mrgnd_perpetuals.World.Turning.{
  left_of, turned, closed, run_message-close, dispatch-short, held-closed, base_added-fits,
}

module _ {T : Type 0} (c : Chain T) (b : Block) (laws : IsUint128 c.uint128)
    (round_trip : (n : ℕ) → n < 2 ^ 128 → c.api.from_str (c.api.to_string n) ≡ ok n) (w : World T)
    (vamm trader : String) (q leverage : ℕ) {config : Config} {list : VammList} {s : VammStorage}
    {st : State} {vamm_config : VammConfig} {position : Position} {t : T}
    (valid_vamm : c.api.addr_validate vamm ≡ ok vamm)
    (valid_trader : c.api.addr_validate trader ≡ ok trader) (ec : w.engine.config ≡ some config)
    (el : w.engine.vamm_list ≡ some list) (listed : is_vamm list vamm ≡ true)
    (found : w.vamms vamm ≡ some s) (es : s.state ≡ some st) (evc : s.config ≡ some vamm_config)
    (nine : vamm_config.decimals ≡ 1000000000) (counts : counter_of s + 2 < 2 ^ 64)
    (has : w.engine.position (position_key (imports_of c b w.vamms) vamm trader) ≡ some position)
    (on_vamm : position.vamm ≡ vamm) (by_trader : position.trader ≡ trader)
    (long : position.direction ≡ add_to_amm) where
  -- A transaction of open_position that sells for at least what a stored long position of that
  -- trader and that vAMM is worth, so that a unit of margin or more is left of the order,
  -- succeeds within three messages, where the addresses are valid and the vAMM registered, the
  -- market has nine decimals and a counter that has room, the leverage, the engine's decimals
  -- and the base reserve with the position's size are positive, the sums and products fit 128
  -- bits, what is left is less than the quote reserve after the closing, `from_str` undoes
  -- `to_string` on numbers of 128 bits, and the token accepts the payment. The vAMM has then
  -- done both swaps, one that takes the whole position back and one that removes what is left of
  -- the notional, with a snapshot of each; the position is a short one of the base asset that
  -- was taken and of that notional, with its margin; no swap is pending; the token is as the
  -- trader's payment of the new margin leaves it, the old margin being neither paid back nor
  -- counted; and nothing else has changed.
  pub transaction-open_position_reverse :
      q * leverage < 2 ^ 128
      → 0 < config.decimals
      → 0 < leverage
      → 0 < st.base_asset_reserve + position.size
      → st.quote_asset_reserve < 2 ^ 128
      → st.quote_asset_reserve * st.base_asset_reserve + st.base_asset_reserve + position.size
        < 2 ^ 128
      → worth_of st position.size ≤ q * leverage / config.decimals
      → 0 < (left_of config vamm trader q leverage st position).open_notional / leverage
      → (left_of config vamm trader q leverage st position).open_notional
        < (base_added st position.size).quote_asset_reserve
      → (base_added st position.size).base_asset_reserve
          + taken (base_added st position.size) (left_of config vamm trader q leverage st position)
        < 2 ^ 128
      → (left_of config vamm trader q leverage st position).open_notional * config.decimals
        < 2 ^ 128
      → c.execute_token w.token c.engine_address (
          transfer_from trader c.engine_address (
            margin_of config
              (left_of config vamm trader q leverage st position)
              (left_of config vamm trader q leverage st position).open_notional))
        ≡ ok t
      → transaction c b 3 w trader (ExecuteMsg.open_position vamm sell q leverage)
        ≡ some (
            ok (record (turned c b w config (offer config vamm trader q leverage) s st position) {
              token = t;
            }))
  unfolding transaction execute dispatch is_increase
  transaction-open_position_reverse small pos leveraged some_base quote_fits between whole some_left
        less room scaled paid =
      let swap = offer config vamm trader q leverage in
      let left = left_of config vamm trader q leverage st position in
      let st₁ = base_added st position.size in
      let s₁ = recorded s (env_of b vamm) st₁ in
      let w₁ = closed c b w swap s st position in
      let fits : st.quote_asset_reserve * st.base_asset_reserve < 2 ^ 128 =
        omega (arith, between) in
      let base_room : st.base_asset_reserve + position.size < 2 ^ 128 = omega (arith, between) in
      let counted : counter_of s + 1 < 2 ^ 64 = omega (arith, counts) in
      let quote_fits₁ : st₁.quote_asset_reserve < 2 ^ 128 =
        omega (arith, left_at-le-quote st position.size some_base) in
      let same : held c b w swap ≡ position = rw has refl in
      let takes : is_increase (held c b w swap).direction sell ≡ false = rw (has, long) refl in
      let price =
        priced c b laws round_trip w swap ec es evc found nine fits counted (rw has long)
          (rw has some_base) (rw has base_room) in
      let found₁ : w₁.vamms vamm ≡ some s₁ = rw ((eq_iff vamm vamm).1 refl) refl in
      let again : held c b w₁ left ≡ emptied (env_of b c.engine_address) position =
        held-closed c b w swap s st position on_vamm by_trader in
      let sum : 0 + left.open_notional ≡ left.open_notional = omega arith in
      let paid₀ : c.execute_token w.token c.engine_address
            (transfer_from trader c.engine_address (margin_of config left (0 + left.open_notional)))
          ≡ ok t =
        rw sum paid in
      let short =
        dispatch-short c b laws round_trip w₁ left ec refl evc found₁ nine
          (base_added-fits st position.size some_base between) (omega (arith, counts))
          (emptied (env_of b c.engine_address) position) t again refl less quote_fits₁ room
          (omega (arith, room)) (omega arith) (rw sum scaled) leveraged paid₀ in
      simp
        (
          open_position-reversed c.api (imports_of c b w.vamms) w.engine (env_of b c.engine_address)
              (info_of trader) vamm trader sell q leverage (worth_of st (held c b w swap).size)
              valid_vamm valid_trader ec el listed small pos (rw has whole) c.uint128 laws takes
              price,
          same,
          dispatch_after-one c b 2 (asking w swap) (reversing_msg vamm position),
          run_message-close c b laws round_trip w swap ec es evc found nine fits counted position
              same long some_base base_room quote_fits leveraged (ground (arith, some_left)),
        )
        short
