-- ===== src/World/SaleTests.antt =====
-- The theorems about sales at a concrete chain, where a trader holds a long position.
use mrgnd_perpetuals.Base.{ℕ, ◌≡◌, refl, str_eq, none, some, ok, if◌then◌else◌, arith}
use mrgnd_perpetuals.Cosmwasm.{documented-IsUint128}
use mrgnd_perpetuals.Cosmwasm.Strokes.{from_str-to_string}
use mrgnd_perpetuals.Perp.Engine.{ExecuteMsg, sell}
use mrgnd_perpetuals.Perp.Vamm
use mrgnd_perpetuals.Vamm.State.{State, Storage as VammStorage}
use mrgnd_perpetuals.Engine.State.{Storage, Position, is_vamm, any_is}
use mrgnd_perpetuals.World.State.{World}
use mrgnd_perpetuals.World.Dispatch.{transaction}
use mrgnd_perpetuals.Base.Division.{ceil_div}
use mrgnd_perpetuals.World.Selling.{offer, reduced, transaction-open_position_sell}
use mrgnd_perpetuals.World.Fixture.{
  chain, block, engine_config, fresh_engine, market_config, market_state, market,
}
use mrgnd_perpetuals.World.Reversing.{transaction-open_position_reverse}
use mrgnd_perpetuals.World.Turning.{turned}

-- A world in which alice has bought, and sells a sixth of that.
abbrev alice_position : Position
alice_position = record {
  vamm = "vamm";
  trader = "alice";
  direction = Vamm.add_to_amm;
  size = 37500000000;
  margin = 60000000000;
  notional = 600000000000;
  premium_fraction = 0;
  liquidity_history_index = 0;
  timestamp = 50;
}

abbrev held_engine : Storage
held_engine = record fresh_engine {
  position = λ key. if str_eq key "vammalice" then some alice_position else none;
}

abbrev moved_state : State
moved_state = record market_state {
  quote_asset_reserve = 1600000000000;
  base_asset_reserve = 62500000000;
}

abbrev moved_market : VammStorage
moved_market = record market { state = some moved_state }

abbrev held_world : World ℕ
held_world = record {
  engine = held_engine;
  vamms = λ address. if str_eq address "vamm" then some moved_market else none;
  token = 60000000000;
}

transaction-open_position_sell_example :
    transaction chain block 3 held_world "alice"
      (ExecuteMsg.open_position "vamm" sell 10000000000 10000000000)
    ≡ some (
        ok (
          reduced chain block held_world
            (offer engine_config "vamm" "alice" 10000000000 10000000000)
            moved_market
            moved_state))
unfolding is_vamm any_is ceil_div
transaction-open_position_sell_example =
    transaction-open_position_sell chain block documented-IsUint128
      (λ n small. from_str-to_string n) held_world "vamm" "alice" 10000000000 10000000000
      {config = engine_config} {st = moved_state} {vamm_config = market_config}
      {position = alice_position} refl refl refl refl refl refl refl refl refl (omega arith)
      (omega arith) refl refl (omega arith) (omega arith) (omega arith) (omega arith) (omega arith)
      (omega arith) (omega arith) (omega arith) (omega arith)

-- Selling for 700 closes the position, worth 600, and opens a short one with the other 100.
transaction-open_position_reverse_example :
    transaction chain block 3 held_world "alice"
      (ExecuteMsg.open_position "vamm" sell 70000000000 10000000000)
    ≡ some (
        ok
          (record (turned chain block held_world engine_config
            (offer engine_config "vamm" "alice" 70000000000 10000000000)
            moved_market
            moved_state
            alice_position) { token = 70000000000 }))
unfolding is_vamm any_is ceil_div
transaction-open_position_reverse_example =
    transaction-open_position_reverse chain block documented-IsUint128
      (λ n small. from_str-to_string n) held_world "vamm" "alice" 70000000000 10000000000
      {config = engine_config} {st = moved_state} {vamm_config = market_config}
      {position = alice_position} refl refl refl refl refl refl refl refl refl (omega arith) refl
      refl refl refl (omega arith) (omega arith) (omega arith) (omega arith) (omega arith)
      (omega arith) (omega arith) (omega arith) (omega arith) (omega arith) (omega arith) refl
