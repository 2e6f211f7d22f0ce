-- ===== src/Vamm/Market.antt =====
-- A host and a market for the tests of the vAMM.
use mrgnd_perpetuals.Base.{ℕ, zero, suc, Option, none, some, ok}
use mrgnd_perpetuals.Cosmwasm.{Api, Env, MessageInfo}
use mrgnd_perpetuals.Vamm.State.{Config, State, ReserveSnapshot, Storage}

-- A host that takes every address, and whose timestamps are seconds.
abbrev pub host_api : Api
host_api = record {
  addr_validate = ok;
  seconds = λ t. t;
  from_seconds = ok;
  to_string = λ n. "n";
  from_str = λ text. ok 0;
  debug = λ text. text;
}

abbrev pub block : Env
block = record { time = 100; height = 7; contract = "vamm" }

abbrev pub owner_info : MessageInfo
owner_info = record { sender = "owner" }

abbrev pub trader_info : MessageInfo
trader_info = record { sender = "trader" }

abbrev pub market_config : Config
market_config = record {
  owner = "owner";
  quote_asset = "ETH";
  base_asset = "USD";
  decimals = 1000000000;
  toll_ratio = 0;
  spread_ratio = 0;
}

abbrev pub reserves : ℕ → ℕ → State
reserves quote base = record {
  quote_asset_reserve = quote;
  base_asset_reserve = base;
  funding_rate = 0;
  funding_period = 3600;
}

abbrev pub snapshot : ℕ → ℕ → ℕ → ReserveSnapshot
snapshot quote base time = record {
  quote_asset_reserve = quote;
  base_asset_reserve = base;
  timestamp = time;
  block_height = 1;
}

-- A market of two snapshots.
abbrev pub market_state : State
market_state = reserves 1000000000000 100000000000

abbrev pub market_snapshot : ℕ → Option ReserveSnapshot
market_snapshot zero = none
market_snapshot (suc zero) = some (snapshot 500000000000 100000000000 10)
market_snapshot (suc (suc zero)) = some (snapshot 1000000000000 100000000000 60)
market_snapshot (suc (suc (suc i))) = none

abbrev pub market : Storage
market = record {
  config = some market_config;
  state = some market_state;
  reserve_snapshot = market_snapshot;
  reserve_snapshot_counter = some 2;
}
