-- ===== src/Cosmwasm.antt =====
-- What the contracts take from the packages `cosmwasm_std` and `cw20`: plain data here, and the
-- code as parameters in `Arithmetic` and `Host`.
mod Arithmetic
mod Host
pub mod Strokes
pub use Arithmetic.{
  StdError, generic_err, not_found, overflow, divide_by_zero, StdResult, Uint128, documented,
}
pub use Arithmetic.{IsUint128, eq-documented, documented-IsUint128}
pub use Host.{Api}
use mrgnd_perpetuals.Base.{ℕ, String, List, []}

pub record MessageInfo : Type 0 where
  pub sender : String

-- The block's time, its height, and the contract's own address.
pub record Env : Type 0 where
  pub time : ℕ
  pub height : ℕ
  pub contract : String

pub data ReplyOn : Type 0 where
  always never : ReplyOn

-- `WasmMsg::Execute` with its payload as a value (`P` has a constructor for each message type that
-- the contracts encode) inside a `SubMsg`; no use sends funds or sets a gas limit.
pub record SubMsg (P : Type 0) : Type 0 where
  pub contract_addr : String
  pub msg : P
  pub id : ℕ
  pub reply_on : ReplyOn

pub record Response (P : Type 0) : Type 0 where
  pub messages : List (SubMsg P)
  pub attributes : List (String × String)

abbrev pub default_response : {P : Type 0} → Response P
default_response = record { messages = []; attributes = [] }
