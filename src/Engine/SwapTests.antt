-- ===== src/Engine/SwapTests.antt =====
-- The theorems about the events of swaps at a concrete vAMM, of six decimals.
use mrgnd_perpetuals.Base.{ℕ, ◌≡◌, refl, none, some, [], ◌∷◌, ok, arith}
use mrgnd_perpetuals.Cosmwasm.{Env, MessageInfo, documented, documented-IsUint128}
use mrgnd_perpetuals.Cosmwasm.Strokes.{host_api, from_str-to_string}
use mrgnd_perpetuals.Perp.Vamm.{add_to_amm}
use mrgnd_perpetuals.Vamm.State.{State, Storage}
use mrgnd_perpetuals.Vamm.Handle.{
  swap_input, swap_output, swap_response, get_input_price_with_reserves,
  get_output_price_with_reserves, update_reserve, flip,
}
use mrgnd_perpetuals.Vamm.Reserves.{recorded}
use mrgnd_perpetuals.Engine.Contract.{parse_swap}
use mrgnd_perpetuals.Engine.Events.{wasm_event, parse_swap-swap_input, parse_swap-swap_output}

abbrev block : Env
block = record { time = 100; height = 7; contract = "vamm" }

abbrev trader_info : MessageInfo
trader_info = record { sender = "trader" }

abbrev reserves : ℕ → ℕ → State
reserves quote base = record {
  quote_asset_reserve = quote;
  base_asset_reserve = base;
  funding_rate = 0;
  funding_period = 3600;
}

abbrev six : Storage
six = record {
  config = some (record {
    owner = "owner";
    quote_asset = "ETH";
    base_asset = "USD";
    decimals = 1000000;
    toll_ratio = 0;
    spread_ratio = 0;
  });
  state = some (reserves 100 10000);
  reserve_snapshot = λ i. none;
  reserve_snapshot_counter = none;
}

six-swap_input :
    swap_input documented host_api six block trader_info add_to_amm 28
    ≡ ok (recorded six block (reserves 128 7812), swap_response host_api "swap_input" 28 2188)
unfolding swap_input get_input_price_with_reserves update_reserve
six-swap_input = refl

six-swap_output :
    swap_output documented host_api six block trader_info add_to_amm 6000
    ≡ ok (recorded six block (reserves 62 16000), swap_response host_api "swap_output" 6000 38)
unfolding swap_output get_output_price_with_reserves update_reserve flip
six-swap_output = refl

parse_swap-swap_input_example :
    (other : ℕ) × (get_input_price_with_reserves documented six add_to_amm 28 ≡ ok other)
    × (parse_swap host_api (wasm_event "vamm" (swap_response host_api "swap_input" 28 2188) ∷ [])
        ≡ ok (28, other))
parse_swap-swap_input_example =
    parse_swap-swap_input documented documented-IsUint128 host_api six block trader_info
      {st = reserves 100 10000} refl add_to_amm 28 (omega arith) "vamm"
      (λ n small. from_str-to_string n) (omega arith) six-swap_input

parse_swap-swap_output_example :
    (other : ℕ) × (get_output_price_with_reserves documented six add_to_amm 6000 ≡ ok other)
    × (parse_swap host_api (wasm_event "vamm" (swap_response host_api "swap_output" 6000 38) ∷ [])
        ≡ ok (6000, other))
parse_swap-swap_output_example =
    parse_swap-swap_output documented documented-IsUint128 host_api six block trader_info
      {st = reserves 100 10000} refl add_to_amm 6000 (omega arith) "vamm"
      (λ n small. from_str-to_string n) (omega arith) six-swap_output
