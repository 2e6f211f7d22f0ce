-- ===== src/World/State.antt =====
-- The storages of the contracts on one chain, and what the chain itself provides.
use mrgnd_perpetuals.Base.{ℕ, String, Option, none, some, ok, err, panic, str_eq, if◌then◌else◌}
use mrgnd_perpetuals.Cosmwasm.{StdResult, generic_err, Uint128, Api, MessageInfo, Env}
use mrgnd_perpetuals.Perp.Messages.{Cw20ExecuteMsg}
use mrgnd_perpetuals.Perp.Vamm.{QueryMsg}
use mrgnd_perpetuals.Perp.Engine.{Cw20HookMsg}
use mrgnd_perpetuals.Vamm.State.{Storage as VammStorage, ContractError}
use mrgnd_perpetuals.Vamm.Contract.{
  Answer, query, config_answer, state_answer, amount_answer, fee_answer,
}
use mrgnd_perpetuals.Engine.State.{Storage as EngineStorage, Imports}

-- What is not part of the repository: the arithmetic, the host's functions, and the token `cw20`
-- with a state `T`, of which only its handler is known. `error_text` is the text that a failed
-- message hands to the reply.
pub record Chain (T : Type 0) : Type 0 where
  pub uint128 : Uint128
  pub api : Api
  pub sha3_256 : String → String
  pub from_binary : String → StdResult Cw20HookMsg
  pub engine_address : String
  pub execute_token : T → String → Cw20ExecuteMsg → StdResult T
  pub error_text : ContractError → String
  pub panic_text : String

pub record Block : Type 0 where
  pub time : ℕ
  pub height : ℕ

-- The engine, the vAMMs by their addresses, and the token.
pub record World (T : Type 0) : Type 0 where
  pub engine : EngineStorage
  pub vamms : String → Option VammStorage
  pub token : T

abbrev pub env_of : Block → String → Env
env_of b address = record { time = b.time; height = b.height; contract = address }

abbrev pub info_of : String → MessageInfo
info_of sender = record { sender = sender }

abbrev pub save_vamm :
    (String → Option VammStorage) → String → VammStorage → String → Option VammStorage
save_vamm vamms address s a = if str_eq a address then some s else vamms a

-- A query is answered by the contract at the address, if there is one; all its failures are the
-- querier's error. The engine asks for amounts.
abbrev pub amount_of : StdResult Answer → StdResult ℕ
amount_of (ok (amount_answer amount)) = ok amount
amount_of (ok (config_answer r)) = err (generic_err "Querier contract error")
amount_of (ok (state_answer r)) = err (generic_err "Querier contract error")
amount_of (ok (fee_answer r)) = err (generic_err "Querier contract error")
amount_of (err e) = err (generic_err "Querier contract error")
amount_of panic = err (generic_err "Querier contract error")

module _ {T : Type 0} (c : Chain T) (b : Block) where
  unfoldable pub query_vamm : Option VammStorage → String → QueryMsg → StdResult ℕ
  query_vamm none address msg = err (generic_err "Querier system error")
  query_vamm (some s) address msg = amount_of (query c.uint128 c.api s (env_of b address) msg)

  -- What the engine takes from elsewhere, on this chain.
  abbrev pub imports_of : (String → Option VammStorage) → Imports
  imports_of vamms = record {
    sha3_256 = c.sha3_256;
    query_wasm_smart = λ address msg. query_vamm (vamms address) address msg;
    from_binary = c.from_binary;
  }
