-- ===== src/Perp/Messages.antt =====
-- The messages that the contracts send: those of the vAMM, and two of the `cw20` token's.
use mrgnd_perpetuals.Base.{ℕ, String}
use mrgnd_perpetuals.Perp.Vamm.{ExecuteMsg}

pub data Cw20ExecuteMsg : Type 0 where
  transfer : String → ℕ → Cw20ExecuteMsg
  transfer_from : String → String → ℕ → Cw20ExecuteMsg

pub data Payload : Type 0 where
  to_vamm : ExecuteMsg → Payload
  to_cw20 : Cw20ExecuteMsg → Payload
