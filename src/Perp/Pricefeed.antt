-- ===== src/Perp/Pricefeed.antt =====
-- packages/margined_perp/src/margined_pricefeed.rs: the price feed's messages.
use mrgnd_perpetuals.Base.{ℕ, String, Option, List}

-- No contract uses this type.
pub data Direction : Type 0 where
  add_to_amm remove_from_amm : Direction

pub record InstantiateMsg : Type 0 where
  pub decimals : ℕ
  pub oracle_hub_contract : String

pub data ExecuteMsg : Type 0 where
  append_price : String → ℕ → ℕ → ExecuteMsg
  append_multiple_price : String → List ℕ → List ℕ → ExecuteMsg
  update_config : Option String → ExecuteMsg

pub data QueryMsg : Type 0 where
  config : QueryMsg
  get_price : String → QueryMsg
  get_previous_price : String → ℕ → QueryMsg
  get_twap_price : String → ℕ → QueryMsg

pub record ConfigResponse : Type 0 where
  pub owner : String
  pub decimals : ℕ
