-- ===== src/Engine/State.antt =====
-- contracts/margined_engine/src/state.rs and error.rs. The bucket of positions is a function of the
-- key, the digest of the two addresses; the digest itself is a parameter.
use Prim.Native.String.{◌++◌ as append}
use mrgnd_perpetuals.Base.{
  ℕ, String, Bool, false, ◌||◌, Option, none, some, List, [], ◌∷◌, ok, err, ◌>>=◌, str_eq,
  if◌then◌else◌,
}
use mrgnd_perpetuals.Cosmwasm.{StdError, StdResult, not_found, Api}
use mrgnd_perpetuals.Perp.Engine.{Side, Cw20HookMsg}
use mrgnd_perpetuals.Perp.Vamm.{Direction, QueryMsg, add_to_amm}

pub data ContractError : Type 0 where
  std : StdError → ContractError
  unauthorized : ContractError

-- What the engine takes from elsewhere: `Sha3_256`, the host's answer to the query of a vAMM's
-- amount, and the decoding of a hook message.
pub record Imports : Type 0 where
  pub sha3_256 : String → String
  pub query_wasm_smart : String → QueryMsg → StdResult ℕ
  pub from_binary : String → StdResult Cw20HookMsg

pub record Config : Type 0 where
  pub owner : String
  pub eligible_collateral : String
  pub decimals : ℕ
  pub initial_margin_ratio : ℕ
  pub maintenance_margin_ratio : ℕ
  pub liquidation_fee : ℕ

pub record VammList : Type 0 where
  pub vamm : List String

pub record Position : Type 0 where
  pub vamm : String
  pub trader : String
  pub direction : Direction
  pub size : ℕ
  pub margin : ℕ
  pub notional : ℕ
  pub premium_fraction : ℕ
  pub liquidity_history_index : ℕ
  pub timestamp : ℕ

abbrev pub default_position : Position
default_position = record {
  vamm = "";
  trader = "";
  direction = add_to_amm;
  size = 0;
  margin = 0;
  notional = 0;
  premium_fraction = 0;
  liquidity_history_index = 0;
  timestamp = 0;
}

pub record Swap : Type 0 where
  pub vamm : String
  pub trader : String
  pub side : Side
  pub quote_asset_amount : ℕ
  pub leverage : ℕ
  pub open_notional : ℕ

pub record Storage : Type 0 where
  pub config : Option Config
  pub vamm_list : Option VammList
  pub position : String → Option Position
  pub tmp_swap : Option Swap

abbrev pub empty_storage : Storage
empty_storage = record { config = none; vamm_list = none; position = λ _. none; tmp_swap = none }

abbrev pub load : {A : Type 0} → Option A → StdResult A
load none = err not_found
load (some a) = ok a

unfoldable pub store_config : Storage → Config → StdResult Storage
store_config s config = ok (record s { config = some config })

unfoldable pub read_config : Storage → StdResult Config
read_config s = load s.config

unfoldable pub any_is : List String → String → Bool
any_is [] addr = false
any_is (a ∷ addrs) addr = str_eq a addr || any_is addrs addr

unfoldable pub is_vamm : VammList → String → Bool
is_vamm list addr = any_is list.vamm addr

-- `input.iter().map(|addr| api.addr_validate(addr)).collect()`
unfoldable pub map_validate : Api → List String → StdResult (List String)
map_validate api [] = ok []
map_validate api (addr ∷ input) = do
  valid ← api.addr_validate addr
  rest ← map_validate api input
  ok (valid ∷ rest)

unfoldable pub store_vamm : Api → Storage → List String → StdResult Storage
store_vamm api s input = do
  vamm ← map_validate api input
  ok (record s { vamm_list = some (record { vamm = vamm }) })

unfoldable pub read_vamm : Storage → StdResult VammList
read_vamm s = load s.vamm_list

-- The digest of the two addresses, one after the other.
abbrev pub position_key : Imports → String → String → String
position_key host vamm trader = host.sha3_256 (append vamm trader)

abbrev pub save_position : (String → Option Position) → String → Position → String → Option Position
save_position bucket key position k = if str_eq k key then some position else bucket k

unfoldable pub store_position : Imports → Storage → Position → StdResult Storage
store_position host s position = ok (record s {
  position = save_position s.position (position_key host position.vamm position.trader) position;
})

unfoldable pub read_position : Imports → Storage → String → String → StdResult (Option Position)
read_position host s vamm trader = ok (s.position (position_key host vamm trader))

unfoldable pub store_tmp_swap : Storage → Swap → StdResult Storage
store_tmp_swap s swap = ok (record s { tmp_swap = some swap })

unfoldable pub remove_tmp_swap : Storage → Storage
remove_tmp_swap s = record s { tmp_swap = none }

-- `load` at the type `Option<Swap>`: a stored swap is read as `some`, and a missing one is an
-- error, never `none`.
abbrev present : Swap → StdResult (Option Swap)
present swap = ok (some swap)

unfoldable pub read_tmp_swap : Storage → StdResult (Option Swap)
read_tmp_swap s = load s.tmp_swap >>= present
