-- ===== src/Vamm/Tests.antt =====
-- The theorems about the vAMM at a concrete market.
use mrgnd_perpetuals.Base.{
  ℕ, zero, suc, ◌+◌, ◌-◌, ◌≤◌, ◌<◌, ◌≡◌, ◌≢◌, refl, eq_iff, none, some, List, [], ◌∷◌, ok, err,
  arith,
}
use mrgnd_perpetuals.Cosmwasm.{
  Response, default_response, documented, documented-IsUint128, overflow,
}
use mrgnd_perpetuals.Perp.Messages.{Payload}
use mrgnd_perpetuals.Perp.Vamm.{ExecuteMsg, add_to_amm, remove_from_amm}
use mrgnd_perpetuals.Vamm.State.{Config, State, ReserveSnapshot, Storage, std}
use mrgnd_perpetuals.Vamm.Handle.{
  update_config, swap_input, swap_output, swap_response, get_input_price_with_reserves,
  update_reserve,
}
use mrgnd_perpetuals.Vamm.Contract.{execute}
use mrgnd_perpetuals.Vamm.Reserves.{recorded}
use mrgnd_perpetuals.Vamm.Configuration.{Updated, update_config_inv}
use mrgnd_perpetuals.Vamm.Ownership.{Trades, execute-Trades}
use mrgnd_perpetuals.Vamm.Swap.{invariant_k}
use mrgnd_perpetuals.Vamm.Invariant.{HasInvariant, execute-HasInvariant}
use mrgnd_perpetuals.Vamm.Exact.{left_at, quote_added, base_added, swap_input-add, swap_output-add}
use mrgnd_perpetuals.Vamm.RoundTrip.{bought, brought_back, swap_output-swap_input}
use mrgnd_perpetuals.Vamm.Limits.{
  swap_input-emptied, swap_output-emptied, swap_input-zero, swap_input-loses,
}
use mrgnd_perpetuals.Vamm.Snapshots.{HasSnapshots, Advances, execute-Advances}
use mrgnd_perpetuals.Vamm.History.{Call, run, run-HasInvariant}
use mrgnd_perpetuals.Vamm.Market.{
  host_api, block, owner_info, trader_info, market_config, reserves, snapshot, market_state,
  market_snapshot, market,
}

market-HasInvariant : HasInvariant market 100000000000000
market-HasInvariant = record {
  config = market_config;
  state = market_state;
  config_stored = refl;
  state_stored = refl;
  nine = refl;
  covered = omega arith;
}

market-filled : (i : ℕ) → 0 < i → i ≤ 2 → (x : ReserveSnapshot) × (market_snapshot i ≡ some x)
market-filled zero pos h = absurd (omega arith)
market-filled (suc zero) pos h = (_, refl)
market-filled (suc (suc zero)) pos h = (_, refl)
market-filled (suc (suc (suc i))) pos h = absurd (omega arith)

market-fresh : (i : ℕ) → 2 < i → market_snapshot i ≡ none
market-fresh zero h = absurd (omega arith)
market-fresh (suc zero) h = absurd (omega arith)
market-fresh (suc (suc zero)) h = absurd (omega arith)
market-fresh (suc (suc (suc i))) h = refl

market-HasSnapshots : HasSnapshots market
market-HasSnapshots = record {
  config = market_config;
  config_stored = refl;
  state = market_state;
  state_stored = refl;
  counted = omega arith;
  latest = snapshot 1000000000000 100000000000 60;
  latest_stored = refl;
  latest_quote = refl;
  latest_base = refl;
  filled = market-filled;
  fresh = market-fresh;
}

-- Sixty units of the quote asset are added.
abbrev bigger : Storage
bigger = recorded market block (quote_added market_state 60000000000)

abbrev bigger_response : Response Payload
bigger_response = swap_response host_api "swap_input" 60000000000 (bought market_state 60000000000)

swap_input-add_example :
    swap_input documented host_api market block trader_info add_to_amm 60000000000
    ≡ ok (bigger, bigger_response)
swap_input-add_example =
    swap_input-add documented documented-IsUint128 host_api market block trader_info
      {st = market_state} {c = market_config} refl refl refl (omega arith) (omega arith) 60000000000
      (omega arith) (omega arith)

swap_output-add_example :
    swap_output documented host_api market block trader_info add_to_amm 5000000000
    ≡ ok (
      recorded market block (base_added market_state 5000000000),
      swap_response host_api "swap_output" 5000000000
          (1000000000000 - left_at market_state (100000000000 + 5000000000)),
    )
swap_output-add_example =
    swap_output-add documented documented-IsUint128 host_api market block trader_info
      {st = market_state} {c = market_config} refl refl refl (omega arith) (omega arith) 5000000000
      (omega arith) (omega arith)

executed :
    execute documented host_api market block trader_info
      (ExecuteMsg.swap_input add_to_amm 60000000000)
    ≡ ok (bigger, bigger_response)
unfolding execute
executed =
    swap_input-add documented documented-IsUint128 host_api market block trader_info
      {st = market_state} {c = market_config} refl refl refl (omega arith) (omega arith) 60000000000
      (omega arith) (omega arith)

execute-HasInvariant_example : HasInvariant bigger 100000000000000
execute-HasInvariant_example =
    execute-HasInvariant documented documented-IsUint128 host_api market block trader_info
      market-HasInvariant (ExecuteMsg.swap_input add_to_amm 60000000000) executed

abbrev two_calls : List Call
two_calls =
    (record { env = block; info = trader_info; msg = ExecuteMsg.swap_input add_to_amm 60000000000 })
    ∷ (record {
      env = block;
      info = trader_info;
      msg = ExecuteMsg.swap_output add_to_amm 60000000000;
    })
    ∷ []

run-HasInvariant_example : HasInvariant (run documented host_api market two_calls) 100000000000000
run-HasInvariant_example =
    run-HasInvariant documented documented-IsUint128 host_api two_calls market market-HasInvariant

execute-Advances_example : Advances market bigger
execute-Advances_example =
    execute-Advances documented documented-IsUint128 host_api market block trader_info
      market-HasSnapshots (ExecuteMsg.swap_input add_to_amm 60000000000) executed

swap_output-swap_input_example :
    let b = bought market_state 60000000000 in
    let q' = brought_back market_state 60000000000 in
    let s₂ = recorded bigger block (base_added (quote_added market_state 60000000000) b) in
    (swap_input documented host_api market block trader_info add_to_amm 60000000000
      ≡ ok (bigger, bigger_response))
    × (swap_output documented host_api bigger block trader_info add_to_amm b
        ≡ ok (s₂, swap_response host_api "swap_output" b q'))
    × (q' ≤ 60000000000)
swap_output-swap_input_example =
    swap_output-swap_input documented documented-IsUint128 host_api market block block trader_info
      trader_info {st = market_state} {c = market_config} refl refl refl (omega arith) 60000000000
      (omega arith) (omega arith) (omega arith) (omega arith)

update_config_inv_example :
    (c' : Config) × (owner_info.sender ≡ market_config.owner)
    × Updated host_api (some "heir") (some 5) none market_config c'
    × ((record market { config = some (record market_config { owner = "heir"; toll_ratio = 5 }) })
        ≡ record market { config = some c' })
    × (default_response {P = Payload} ≡ default_response)
unfolding update_config
update_config_inv_example =
    update_config_inv host_api market owner_info (some "heir") (some 5) none {c = market_config}
      refl refl

trader-ne-owner : trader_info.sender ≢ market_config.owner
trader-ne-owner same = ground (arith, eq_iff "trader" "owner")

execute-Trades_example : (bigger.config ≡ market.config) × Trades market block bigger
execute-Trades_example =
    execute-Trades host_api market block trader_info documented documented-IsUint128
      (ExecuteMsg.swap_input add_to_amm 60000000000) {c = market_config} refl trader-ne-owner
      executed

swap_input-emptied_example :
    swap_input documented host_api market block trader_info remove_from_amm 1000000000001
    ≡ err (std overflow)
swap_input-emptied_example =
    swap_input-emptied documented documented-IsUint128 host_api market block trader_info
      {st = market_state} {c = market_config} refl refl (omega arith) (omega arith) 1000000000001
      (omega arith)

swap_output-emptied_example :
    swap_output documented host_api market block trader_info remove_from_amm 100000000001
    ≡ err (std overflow)
swap_output-emptied_example =
    swap_output-emptied documented documented-IsUint128 host_api market block trader_info
      {st = market_state} {c = market_config} refl refl (omega arith) (omega arith) 100000000001
      (omega arith)

-- A market of a few indivisible units.
abbrev dust : Storage
dust = record market { state = some (reserves 1 5) }

swap_input-zero_example :
    let b = 5 - left_at (reserves 1 5) 1 in
    (swap_input documented host_api dust block trader_info add_to_amm 0
      ≡ ok (
        recorded dust block (quote_added (reserves 1 5) 0),
        swap_response host_api "swap_input" 0 b,
      ))
    × (0 < b)
swap_input-zero_example =
    swap_input-zero documented documented-IsUint128 host_api dust block trader_info
      {st = reserves 1 5} {c = market_config} refl refl refl (omega arith) (omega arith)
      (omega arith) (omega arith) (omega arith)

-- A market of six decimals.
abbrev six_config : Config
six_config = record market_config { decimals = 1000000 }

abbrev six : Storage
six = record market { config = some six_config; state = some (reserves 100 10000) }

six-swap_input :
    swap_input documented host_api six block trader_info add_to_amm 28
    ≡ ok (recorded six block (reserves 128 7812), swap_response host_api "swap_input" 28 2188)
unfolding swap_input get_input_price_with_reserves update_reserve
six-swap_input = refl

swap_input-loses_example :
    (st' : State) × (some (reserves 128 7812) ≡ some st')
    × (invariant_k six_config st' < invariant_k six_config (reserves 100 10000))
swap_input-loses_example =
    swap_input-loses documented documented-IsUint128 host_api six block trader_info
      {st = reserves 100 10000} {c = six_config} refl refl 28 (omega arith) (omega arith)
      six-swap_input
