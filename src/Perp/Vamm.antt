-- ===== src/Perp/Vamm.antt =====
-- packages/margined_perp/src/margined_vamm.rs: the vAMM's messages.
use mrgnd_perpetuals.Base.{ℕ, String, Option}

pub data Direction : Type 0 where
  add_to_amm remove_from_amm : Direction

pub record InstantiateMsg : Type 0 where
  pub decimals : ℕ
  pub quote_asset : String
  pub base_asset : String
  pub quote_asset_reserve : ℕ
  pub base_asset_reserve : ℕ
  pub funding_period : ℕ
  pub toll_ratio : ℕ
  pub spread_ratio : ℕ

pub data ExecuteMsg : Type 0 where
  update_config : Option String → Option ℕ → Option ℕ → ExecuteMsg
  swap_input : Direction → ℕ → ExecuteMsg
  swap_output : Direction → ℕ → ExecuteMsg

pub data QueryMsg : Type 0 where
  config state spot_price : QueryMsg
  output_price : Direction → ℕ → QueryMsg
  twap_price : ℕ → QueryMsg
  calc_fee : ℕ → QueryMsg

pub record ConfigResponse : Type 0 where
  pub owner : String
  pub quote_asset : String
  pub base_asset : String
  pub toll_ratio : ℕ
  pub spread_ratio : ℕ
  pub decimals : ℕ

pub record StateResponse : Type 0 where
  pub quote_asset_reserve : ℕ
  pub base_asset_reserve : ℕ
  pub funding_rate : ℕ
  pub funding_period : ℕ

pub record CalcFeeResponse : Type 0 where
  pub toll_fee : ℕ
  pub spread_fee : ℕ
