-- ===== src/Engine/Querier.antt =====
-- contracts/margined_engine/src/querier.rs: the query of a vAMM, which the host answers.
use mrgnd_perpetuals.Base.{ℕ, String}
use mrgnd_perpetuals.Cosmwasm.{StdResult}
use mrgnd_perpetuals.Perp.Vamm.{Direction, QueryMsg}
use mrgnd_perpetuals.Engine.State.{Imports}

unfoldable pub query_vamm_output_price : Imports → String → Direction → ℕ → StdResult ℕ
query_vamm_output_price host vamm_addr direction amount =
    host.query_wasm_smart vamm_addr (QueryMsg.output_price direction amount)
