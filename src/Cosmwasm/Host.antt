-- ===== src/Cosmwasm/Host.antt =====
-- The host's address check, and the conversions of `Timestamp` and `Uint128`: parameters. A
-- timestamp is the number that `Timestamp` wraps, and `seconds` is what `.seconds()` reads of it.
-- `debug` is the text of a text under `{:?}`.
use mrgnd_perpetuals.Base.{ℕ, String}
use mrgnd_perpetuals.Cosmwasm.Arithmetic.{StdResult}

pub record Api : Type 0 where
  pub addr_validate : String → StdResult String
  pub seconds : ℕ → ℕ
  pub from_seconds : ℕ → StdResult ℕ
  pub to_string : ℕ → String
  pub from_str : String → StdResult ℕ
  pub debug : String → String
