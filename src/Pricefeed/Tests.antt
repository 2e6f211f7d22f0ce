-- ===== src/Pricefeed/Tests.antt =====
-- The theorems about the price feed at a concrete storage.
use mrgnd_perpetuals.Base.{
  ℕ, zero, suc, ◌/◌, ◌^◌, ◌≤◌, ◌<◌, ◌≡◌, ◌≢◌, refl, eq_iff, String, str_eq, Option, none, some,
  List, [], ◌∷◌, ok, err, panic, Bool-cases, inl, inr, arith, if◌then◌else◌,
}
use mrgnd_perpetuals.Cosmwasm.{
  Api, Env, MessageInfo, default_response, documented, documented-IsUint128,
}
use mrgnd_perpetuals.Perp.Pricefeed.{ExecuteMsg}
use mrgnd_perpetuals.Twap.{price_at, price_sum}
use mrgnd_perpetuals.Pricefeed.State.{
  Config, PriceData, Storage, unauthorized, default_price, store_price_data,
}
use mrgnd_perpetuals.Pricefeed.Handle.{append_price}
use mrgnd_perpetuals.Pricefeed.Query.{
  query_get_price, query_get_previous_price, query_get_twap_price,
}
use mrgnd_perpetuals.Pricefeed.Contract.{execute, instantiate}
use mrgnd_perpetuals.Pricefeed.Log.{call_feed, entries}
use mrgnd_perpetuals.Pricefeed.Answers.{Call, run, run_feed, new_feed, Answers, instantiate-Answers}
use mrgnd_perpetuals.Pricefeed.Rounds.{HasRounds, extended, next_round}
use mrgnd_perpetuals.Pricefeed.Appends.{execute-HasRounds, execute-unauthorized}
use mrgnd_perpetuals.Pricefeed.Previous.{
  Counts, query_get_previous_price-Counts, append_price-query_get_price,
}
use mrgnd_perpetuals.Pricefeed.Twap.{query_get_twap_price-price_sum, query_get_twap_price-stale}

abbrev host_api : Api
host_api = record {
  addr_validate = ok;
  seconds = λ t. t;
  from_seconds = ok;
  to_string = λ n. "n";
  from_str = λ text. ok 0;
  debug = λ text. text;
}

abbrev block : Env
block = record { time = 100; height = 7; contract = "feed" }

abbrev owner_info : MessageInfo
owner_info = record { sender = "owner" }

abbrev trader_info : MessageInfo
trader_info = record { sender = "trader" }

abbrev feed_config : Config
feed_config = record { owner = "owner"; decimals = 1000000000 }

abbrev round : ℕ → ℕ → ℕ → PriceData
round round_id price timestamp = record {
  round_id = round_id;
  price = price;
  timestamp = timestamp;
}

abbrev eth_rounds : List PriceData
eth_rounds = round 2 7 60 ∷ round 1 5 10 ∷ default_price ∷ []

abbrev feed_prices : String → Option (List PriceData)
feed_prices key = if str_eq key "ETH" then some eth_rounds else none

abbrev feed : Storage
feed = record { config = some feed_config; prices = feed_prices }

feed-HasRounds : HasRounds feed
feed-HasRounds key = elim (Bool-cases (str_eq key "ETH")) [
  | inl same ↦ rw same (refl, (refl, refl))
  | inr other ↦ rw other refl
]

appended :
    append_price host_api feed owner_info "ETH" 9 90
    ≡ ok (extended feed "ETH" (round 3 9 90), default_response)
unfolding append_price store_price_data
appended = refl

executed :
    execute host_api feed block owner_info (ExecuteMsg.append_price "ETH" 9 90)
    ≡ ok (extended feed "ETH" (round 3 9 90), default_response)
unfolding execute
executed = appended

execute-HasRounds_example :
    HasRounds (extended feed "ETH" (round 3 9 90))
    × ((c : Config) × (some feed_config ≡ some c) × (owner_info.sender ≡ c.owner))
execute-HasRounds_example =
    execute-HasRounds host_api feed block owner_info (ExecuteMsg.append_price "ETH" 9 90)
      feed-HasRounds executed

trader-ne-owner : trader_info.sender ≢ feed_config.owner
trader-ne-owner same = ground (arith, eq_iff "trader" "owner")

execute-unauthorized_example :
    execute host_api feed block trader_info (ExecuteMsg.append_price "ETH" 9 90) ≡ err unauthorized
execute-unauthorized_example =
    execute-unauthorized host_api feed block trader_info (ExecuteMsg.append_price "ETH" 9 90)
      {c = feed_config} refl trader-ne-owner

query_get_previous_price-Counts_example :
    Counts (query_get_price feed "ETH") 1 (query_get_previous_price feed "ETH" 1)
query_get_previous_price-Counts_example =
    query_get_previous_price-Counts feed "ETH" 1 feed-HasRounds

btc-ne-eth : ◌≢◌ {A = String} "BTC" "ETH"
btc-ne-eth same = ground (arith, eq_iff "BTC" "ETH")

append_price-query_get_price_example :
    let s' = extended feed "ETH" (round 3 9 90) in
    (time : ℕ) × (host_api.from_seconds 90 ≡ ok time)
    × (query_get_price s' "ETH" ≡ ok (next_round feed "ETH" 9 time))
    × (query_get_previous_price s' "ETH" 1 ≡ query_get_price feed "ETH")
    × (query_get_price s' "BTC" ≡ query_get_price feed "BTC")
append_price-query_get_price_example =
    append_price-query_get_price host_api feed owner_info "ETH" "BTC" 9 90 feed-HasRounds btc-ne-eth
      appended

abbrev price_of : ℕ → ℕ
price_of zero = 0
price_of (suc zero) = 5
price_of (suc (suc i)) = 7

abbrev time_of : ℕ → ℕ
time_of zero = 0
time_of (suc zero) = 10
time_of (suc (suc i)) = 60

room : price_sum price_of time_of 2 20 80 < 2 ^ 128
unfolding price_sum price_at
room = omega arith

rising : 0 < 1 → time_of 1 ≤ time_of 2
rising pos = omega arith

first : 0 < 0 → time_of 0 ≤ time_of 1
first pos = omega arith

query_get_twap_price-price_sum_example :
    query_get_twap_price documented host_api feed block "ETH" 80
    ≡ ok (price_sum price_of time_of 2 20 80 / 80)
query_get_twap_price-price_sum_example =
    query_get_twap_price-price_sum documented documented-IsUint128 host_api feed block "ETH" 80
      (round 2 7 60) (round 1 5 10 ∷ default_price ∷ []) refl (omega arith) (omega arith) price_of
      time_of 1 (refl, refl, refl, rising, (refl, refl, refl, first, (refl, refl))) (omega arith)
      (omega arith) (omega arith) (omega arith) room

two-ne-one : ◌≢◌ {A = ℕ} 2 1
two-ne-one = omega arith

query_get_twap_price-stale_example :
    query_get_twap_price documented host_api feed block "ETH" 20 ≡ panic
query_get_twap_price-stale_example =
    query_get_twap_price-stale documented documented-IsUint128 host_api feed block "ETH" 20
      (round 2 7 60) (round 1 5 10 ∷ default_price ∷ []) refl (omega arith) (omega arith)
      (round 1 5 10) two-ne-one refl (omega arith) (omega arith) (omega arith)

-- The owner's price, a stranger's, and two of the owner's at once.
abbrev three_calls : List Call
three_calls =
    (record { env = block; info = owner_info; msg = ExecuteMsg.append_price "ETH" 5 10 })
    ∷ (record { env = block; info = trader_info; msg = ExecuteMsg.append_price "ETH" 6 20 })
    ∷ (record {
      env = block;
      info = owner_info;
      msg = ExecuteMsg.append_multiple_price "ETH" (7 ∷ 8 ∷ []) (30 ∷ 40 ∷ []);
    })
    ∷ []

abbrev new_storage : Storage
new_storage = record { config = some feed_config; prices = λ key. none }

instantiate-Answers_example :
    Answers
      (run_feed host_api (new_feed "owner") three_calls)
      (run host_api new_storage three_calls)
      "ETH"
      1
unfolding instantiate
instantiate-Answers_example =
    instantiate-Answers host_api block owner_info
      (record { decimals = 9; oracle_hub_contract = "hub" }) three_calls "ETH" 1 {s = new_storage}
      {r = default_response} refl

-- That log.
three_calls-log :
    (run_feed host_api (new_feed "owner") three_calls).log "ETH" ≡ (8, 40) ∷ (7, 30) ∷ (5, 10) ∷ []
unfolding run_feed call_feed entries
three_calls-log = refl
