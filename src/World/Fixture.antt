-- ===== src/World/Fixture.antt =====
-- A chain for the tests, with one market and a token that counts what the engine was paid.
use mrgnd_perpetuals.Base.{
  ℕ, ◌+◌, ◌-◌, String, str_eq, ltb, Option, none, some, [], ◌∷◌, ok, err, if◌then◌else◌,
}
use mrgnd_perpetuals.Cosmwasm.{StdError, StdResult, generic_err, documented}
use mrgnd_perpetuals.Cosmwasm.Strokes.{host_api}
use mrgnd_perpetuals.Perp.Messages.{Cw20ExecuteMsg, transfer, transfer_from}
use mrgnd_perpetuals.Vamm.State.{State, Storage as VammStorage, Config as VammConfig}
use mrgnd_perpetuals.Engine.State.{Storage, Config}
use mrgnd_perpetuals.World.State.{Chain, Block, World}

-- A token whose state is the balance of the engine.
abbrev pub pay : ℕ → String → Cw20ExecuteMsg → StdResult ℕ
pay balance sender (transfer_from owner receiver amount) = ok (balance + amount)
pay balance sender (transfer receiver amount) =
    if ltb balance amount then err (generic_err "balance") else ok (balance - amount)

abbrev pub chain : Chain ℕ
chain = record {
  uint128 = documented;
  api = host_api;
  sha3_256 = λ text. text;
  from_binary = λ text. err StdError.not_found;
  engine_address = "engine";
  execute_token = pay;
  error_text = λ e. "failed";
  panic_text = "panicked";
}

abbrev pub block : Block
block = record { time = 100; height = 7 }

abbrev pub engine_config : Config
engine_config = record {
  owner = "owner";
  eligible_collateral = "usdc";
  decimals = 1000000000;
  initial_margin_ratio = 50000000;
  maintenance_margin_ratio = 50000000;
  liquidation_fee = 50000000;
}

abbrev pub fresh_engine : Storage
fresh_engine = record {
  config = some engine_config;
  vamm_list = some (record { vamm = "vamm" ∷ [] });
  position = λ key. none;
  tmp_swap = none;
}

abbrev pub market_config : VammConfig
market_config = record {
  owner = "owner";
  quote_asset = "ETH";
  base_asset = "USD";
  decimals = 1000000000;
  toll_ratio = 0;
  spread_ratio = 0;
}

abbrev pub market_state : State
market_state = record {
  quote_asset_reserve = 1000000000000;
  base_asset_reserve = 100000000000;
  funding_rate = 0;
  funding_period = 3600;
}

abbrev pub market : VammStorage
market = record {
  config = some market_config;
  state = some market_state;
  reserve_snapshot = λ i. none;
  reserve_snapshot_counter = none;
}

abbrev pub vamms : String → Option VammStorage
vamms address = if str_eq address "vamm" then some market else none

abbrev pub world : World ℕ
world = record { engine = fresh_engine; vamms = vamms; token = 0 }
