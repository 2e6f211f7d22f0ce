-- ===== src/Engine/Fixture.antt =====
-- A host and a storage for the tests of the margin engine.
use mrgnd_perpetuals.Base.{
  String, str_eq, Option, none, some, [], ◌∷◌, ok, err, ◌==◌, if◌then◌else◌,
}
use mrgnd_perpetuals.Cosmwasm.{StdError, Api, Env, MessageInfo, SubMsg, Response}
use mrgnd_perpetuals.Perp.Messages.{Payload}
use mrgnd_perpetuals.Perp.Engine.{buy}
use mrgnd_perpetuals.Perp.Vamm.{add_to_amm}
use mrgnd_perpetuals.Engine.State.{Imports, Storage, Config, Position, Swap}
use mrgnd_perpetuals.Engine.Positions.{reopening_msg}

abbrev pub host_api : Api
host_api = record {
  addr_validate = ok;
  seconds = λ t. t;
  from_seconds = ok;
  to_string = λ n. if n == 12 then "12" else "60";
  from_str = λ text. ok (if str_eq text "12" then 12 else 60);
  debug = λ text. text;
}

abbrev pub host : Imports
host = record {
  sha3_256 = λ text. text;
  query_wasm_smart = λ vamm msg. ok 500;
  from_binary = λ text. err StdError.not_found;
}

abbrev pub block : Env
block = record { time = 100; height = 7; contract = "engine" }

abbrev pub trader_info : MessageInfo
trader_info = record { sender = "alice" }

abbrev pub engine_config : Config
engine_config = record {
  owner = "owner";
  eligible_collateral = "usdc";
  decimals = 1000000000;
  initial_margin_ratio = 50000000;
  maintenance_margin_ratio = 50000000;
  liquidation_fee = 50000000;
}

abbrev pub alice_position : Position
alice_position = record {
  vamm = "vamm";
  trader = "alice";
  direction = add_to_amm;
  size = 37;
  margin = 60;
  notional = 600;
  premium_fraction = 0;
  liquidity_history_index = 0;
  timestamp = 50;
}

abbrev pub positions : String → Option Position
positions key = if str_eq key "vammalice" then some alice_position else none

abbrev pub alice_swap : Swap
alice_swap = record {
  vamm = "vamm";
  trader = "alice";
  side = buy;
  quote_asset_amount = 60;
  leverage = 10000000000;
  open_notional = 600;
}

abbrev pub idle : Storage
idle = record {
  config = some engine_config;
  vamm_list = some (record { vamm = "vamm" ∷ [] });
  position = positions;
  tmp_swap = none;
}

abbrev pub pending_storage : Storage
pending_storage = record idle { tmp_swap = some alice_swap }

abbrev pub order_msg : SubMsg Payload
order_msg = reopening_msg alice_swap 600

abbrev pub open_response : Response Payload
open_response = record { messages = order_msg ∷ []; attributes = ("action", "open_position") ∷ [] }
