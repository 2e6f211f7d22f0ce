-- ===== src/Vamm/PriceTests.antt =====
-- The theorems about the queries of the vAMM at a concrete market.
use mrgnd_perpetuals.Base.{ℕ, zero, suc, ◌+◌, ◌-◌, ◌/◌, ◌^◌, ◌≤◌, ◌<◌, ◌≡◌, refl, some, ok, arith}
use mrgnd_perpetuals.Cosmwasm.{documented, documented-IsUint128}
use mrgnd_perpetuals.Perp.Vamm.{remove_from_amm}
use mrgnd_perpetuals.Twap.{price_at, price_sum}
use mrgnd_perpetuals.Vamm.State.{Config}
use mrgnd_perpetuals.Vamm.Handle.{swap_input, swap_response}
use mrgnd_perpetuals.Vamm.Query.{query_twap_price, reserve_price, query_calc_fee}
use mrgnd_perpetuals.Vamm.Reserves.{recorded}
use mrgnd_perpetuals.Vamm.TwapSteps.{Sample}
use mrgnd_perpetuals.Vamm.Twap.{query_twap_price-price_sum}
use mrgnd_perpetuals.Vamm.Market.{host_api, block, trader_info, market_config, market_state, market}
use mrgnd_perpetuals.Vamm.ShortTwap.{query_twap_price-since_first}
use mrgnd_perpetuals.Base.Division.{ceil_div}
use mrgnd_perpetuals.Vamm.Removing.{quote_removed, taken_at, swap_input-remove}
use mrgnd_perpetuals.Vamm.Fees.{query_calc_fee-le}

-- The samples of the market's snapshots.
abbrev price_of : ℕ → ℕ
price_of zero = 0
price_of (suc zero) = 5000000000
price_of (suc (suc i)) = 10000000000

abbrev time_of : ℕ → ℕ
time_of zero = 0
time_of (suc zero) = 10
time_of (suc (suc i)) = 60

market-Sample :
    (i : ℕ)
    → 0 < i
    → i ≤ 2
    → Sample documented host_api market market_config i (price_of i) (time_of i)
unfolding reserve_price
market-Sample zero pos h = absurd (omega arith)
market-Sample (suc zero) pos h = (_, refl, refl, refl)
market-Sample (suc (suc zero)) pos h = (_, refl, refl, refl)
market-Sample (suc (suc (suc i))) pos h = absurd (omega arith)

market-rising : (i : ℕ) → 0 < i → i < 2 → time_of i ≤ time_of (suc i)
market-rising zero pos h = absurd (omega arith)
market-rising (suc zero) pos h = omega arith
market-rising (suc (suc i)) pos h = absurd (omega arith)

room : price_sum price_of time_of 2 20 80 < 2 ^ 128
unfolding price_sum price_at
room = omega arith

query_twap_price-price_sum_example :
    query_twap_price documented host_api market block 80
    ≡ ok (price_sum price_of time_of 2 20 80 / 80)
query_twap_price-price_sum_example =
    query_twap_price-price_sum documented documented-IsUint128 host_api market block
      {c = market_config} refl price_of time_of 1 80 refl
      (record { stored = market-Sample; ordered = market-rising }) (omega arith) (omega arith)
      (omega arith) (omega arith) (omega arith) room

sum_room : price_sum price_of time_of 2 10 90 < 2 ^ 128
unfolding price_sum price_at
sum_room = omega arith

query_twap_price-since_first_example :
    query_twap_price documented host_api market block 95
    ≡ ok (price_sum price_of time_of 2 10 90 / 90)
query_twap_price-since_first_example =
    query_twap_price-since_first documented documented-IsUint128 host_api market block
      {c = market_config} refl price_of time_of 1 95 refl
      (record { stored = market-Sample; ordered = market-rising }) (omega arith) (omega arith)
      (omega arith) (omega arith) (omega arith) sum_room

-- A toll of 1 % and a spread of 2 %.
abbrev charging_config : Config
charging_config = record market_config { toll_ratio = 10000000; spread_ratio = 20000000 }

query_calc_fee-le_example :
    (query_calc_fee documented (record market { config = some charging_config }) 60000000000
      ≡ ok (record { toll_fee = 600000000; spread_fee = 1200000000 }))
    × (600000000 + 1200000000 ≤ 60000000000)
query_calc_fee-le_example =
    query_calc_fee-le documented documented-IsUint128
      (record market { config = some charging_config }) {c = charging_config} refl 60000000000
      (omega arith) (omega arith) (omega arith) (omega arith)

swap_input-remove_example :
    swap_input documented host_api market block trader_info remove_from_amm 60000000000
    ≡ ok (
      recorded market block (quote_removed market_state 60000000000),
      swap_response host_api "swap_input" 60000000000
          (taken_at market_state (1000000000000 - 60000000000) 100000000000),
    )
unfolding ceil_div
swap_input-remove_example =
    swap_input-remove documented documented-IsUint128 host_api market block trader_info
      {st = market_state} {c = market_config} refl refl refl (omega arith) (omega arith) 60000000000
      (omega arith) (omega arith)
