-- ===== src/Perp/Engine.antt =====
-- packages/margined_perp/src/margined_engine.rs: the margin engine's messages.
use mrgnd_perpetuals.Base.{ℕ, String, List}

pub data Side : Type 0 where
  buy sell : Side

-- No contract uses this type, nor `SwapResponse`.
pub data PnlCalc : Type 0 where
  spot_price twap oracle : PnlCalc

pub record InstantiateMsg : Type 0 where
  pub decimals : ℕ
  pub eligible_collateral : String
  pub initial_margin_ratio : ℕ
  pub maintenance_margin_ratio : ℕ
  pub liquidation_fee : ℕ
  pub vamm : List String

-- `cw20::Cw20ReceiveMsg`: who sent how much to the engine, and an encoded hook message.
pub record Cw20ReceiveMsg : Type 0 where
  pub sender : String
  pub amount : ℕ
  pub msg : String

pub data ExecuteMsg : Type 0 where
  receive : Cw20ReceiveMsg → ExecuteMsg
  update_config : String → ExecuteMsg
  open_position : String → Side → ℕ → ℕ → ExecuteMsg
  close_position : String → ExecuteMsg

pub data Cw20HookMsg : Type 0 where
  open_position : String → Side → ℕ → Cw20HookMsg

pub data QueryMsg : Type 0 where
  config : QueryMsg
  position : String → String → QueryMsg
  trader_balance : String → QueryMsg

pub record ConfigResponse : Type 0 where
  pub owner : String
  pub eligible_collateral : String

pub record PositionResponse : Type 0 where
  pub size : ℕ
  pub margin : ℕ
  pub notional : ℕ
  pub premium_fraction : ℕ
  pub liquidity_history_index : ℕ
  pub timestamp : ℕ

pub record SwapResponse : Type 0 where
  pub vamm : String
  pub trader : String
  pub side : String
  pub quote_asset_amount : ℕ
  pub leverage : ℕ
  pub open_notional : ℕ
  pub input : ℕ
  pub output : ℕ
