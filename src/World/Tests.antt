-- ===== src/World/Tests.antt =====
-- The theorems about the contracts together, at a concrete chain.
use mrgnd_perpetuals.Base.{◌≡◌, ◌≢◌, refl, some, List, [], ◌∷◌, ok, arith}
use mrgnd_perpetuals.Cosmwasm.{documented-IsUint128}
use mrgnd_perpetuals.Cosmwasm.Strokes.{from_str-to_string}
use mrgnd_perpetuals.Perp.Engine.{ExecuteMsg, buy, sell}
use mrgnd_perpetuals.Perp.Vamm
use mrgnd_perpetuals.Vamm.Invariant.{HasInvariant}
use mrgnd_perpetuals.Engine.State.{is_vamm, any_is}
use mrgnd_perpetuals.Engine.Utils.{side_to_direction}
use mrgnd_perpetuals.Engine.Handle.{is_increase}
use mrgnd_perpetuals.World.Dispatch.{transaction}
use mrgnd_perpetuals.World.Settled.{Ended, transaction-Ended}
use mrgnd_perpetuals.World.Closing.{transaction-close_position}
use mrgnd_perpetuals.World.Opening.{bid, grown, transaction-open_position}
use mrgnd_perpetuals.World.History.{Call, engine_call, vamm_call, run, IsSound, run-IsSound}
use mrgnd_perpetuals.World.Fixture.{
  chain, block, engine_config, market_config, market_state, market, world,
}

transaction-Ended_example : Ended chain block (
    transaction chain block 3 world "alice"
      (ExecuteMsg.open_position "vamm" sell 60000000000 10000000000))
transaction-Ended_example =
    transaction-Ended chain block world "alice"
      (ExecuteMsg.open_position "vamm" sell 60000000000 10000000000) refl

transaction-close_position_example :
    transaction chain block 3 world "alice" (ExecuteMsg.close_position "vamm") ≢ some (ok world)
transaction-close_position_example = transaction-close_position chain block 3 world "alice" "vamm"

market-HasInvariant : HasInvariant market 100000000000000
market-HasInvariant = record {
  config = market_config;
  state = market_state;
  config_stored = refl;
  state_stored = refl;
  nine = refl;
  covered = omega arith;
}

-- A purchase, a failing close, and a direct call of the vAMM.
abbrev three_calls : List Call
three_calls =
    engine_call block "alice" (ExecuteMsg.open_position "vamm" buy 60000000000 10000000000)
    ∷ engine_call block "alice" (ExecuteMsg.close_position "vamm")
    ∷ vamm_call block "bob" "vamm" (Vamm.ExecuteMsg.swap_output Vamm.add_to_amm 5000000000)
    ∷ []

run-IsSound_example :
    IsSound chain documented-IsUint128 "vamm" 100000000000000 (run chain world three_calls)
run-IsSound_example =
    run-IsSound chain documented-IsUint128 "vamm" 100000000000000 world three_calls
      (refl, (market, refl, market-HasInvariant))

-- 60 of margin at tenfold leverage buy for 600.
transaction-open_position_example :
    (let swap = bid engine_config "vamm" "alice" 60000000000 10000000000 in
      transaction chain block 3 world "alice"
        (ExecuteMsg.open_position "vamm" buy 60000000000 10000000000)
      ≡ some (
          ok (record (grown chain block world engine_config swap market market_state) {
            token = 60000000000;
          })))
unfolding is_increase is_vamm any_is side_to_direction
transaction-open_position_example =
    transaction-open_position chain block documented-IsUint128 (λ n small. from_str-to_string n)
      world "vamm" "alice" 60000000000 10000000000 {config = engine_config} {st = market_state}
      {vamm_config = market_config} refl refl refl refl refl refl refl refl refl (omega arith)
      (omega arith) (omega arith) (omega arith) (omega arith) refl (omega arith) (omega arith)
      (omega arith) (omega arith) (omega arith) refl
