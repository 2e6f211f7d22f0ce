-- ===== src/Vamm/State.antt =====
-- contracts/margined_vamm/src/state.rs and error.rs. The contract's storage has a slot for each
-- singleton, and the bucket of snapshots as a function of the counter under which each is kept.
use mrgnd_perpetuals.Base.{
  ℕ, String, Option, none, some, ok, err, ◌>>=◌, u64_add, ◌==◌, if◌then◌else◌,
}
use mrgnd_perpetuals.Cosmwasm.{StdError, StdResult, not_found}

pub data ContractError : Type 0 where
  std : StdError → ContractError
  unauthorized : ContractError

pub record Config : Type 0 where
  pub owner : String
  pub quote_asset : String
  pub base_asset : String
  pub decimals : ℕ
  pub toll_ratio : ℕ
  pub spread_ratio : ℕ

pub record State : Type 0 where
  pub quote_asset_reserve : ℕ
  pub base_asset_reserve : ℕ
  pub funding_rate : ℕ
  pub funding_period : ℕ

pub record ReserveSnapshot : Type 0 where
  pub quote_asset_reserve : ℕ
  pub base_asset_reserve : ℕ
  pub timestamp : ℕ
  pub block_height : ℕ

pub record Storage : Type 0 where
  pub config : Option Config
  pub state : Option State
  pub reserve_snapshot : ℕ → Option ReserveSnapshot
  pub reserve_snapshot_counter : Option ℕ

abbrev pub empty_storage : Storage
empty_storage = record {
  config = none;
  state = none;
  reserve_snapshot = λ _. none;
  reserve_snapshot_counter = none;
}

-- `load` of a singleton or a bucket: a missing value is an error.
abbrev pub load : {A : Type 0} → Option A → StdResult A
load none = err not_found
load (some a) = ok a

unfoldable pub store_config : Storage → Config → StdResult Storage
store_config s config = ok (record s { config = some config })

unfoldable pub read_config : Storage → StdResult Config
read_config s = load s.config

unfoldable pub store_state : Storage → State → StdResult Storage
store_state s state = ok (record s { state = some state })

unfoldable pub read_state : Storage → StdResult State
read_state s = load s.state

unfoldable pub read_reserve_snapshot : Storage → ℕ → StdResult ReserveSnapshot
read_reserve_snapshot s height = load (s.reserve_snapshot height)

abbrev pub unwrap_or_default : Option ℕ → ℕ
unwrap_or_default none = 0
unwrap_or_default (some n) = n

abbrev pub counter_of : Storage → ℕ
counter_of s = unwrap_or_default s.reserve_snapshot_counter

unfoldable pub read_reserve_snapshot_counter : Storage → StdResult ℕ
read_reserve_snapshot_counter s = ok (counter_of s)

unfoldable pub increment_reserve_snapshot_counter : Storage → StdResult Storage
unfolding read_reserve_snapshot_counter
increment_reserve_snapshot_counter s = do
  counter ← read_reserve_snapshot_counter s
  val ← u64_add counter 1
  ok (record s { reserve_snapshot_counter = some val })

-- `bucket.save`
abbrev pub save_snapshot :
    (ℕ → Option ReserveSnapshot) → ℕ → ReserveSnapshot → ℕ → Option ReserveSnapshot
save_snapshot bucket height snapshot k = if k == height then some snapshot else bucket k

unfoldable pub store_reserve_snapshot : Storage → ReserveSnapshot → StdResult Storage
unfolding increment_reserve_snapshot_counter
store_reserve_snapshot s snapshot = do
  s' ← increment_reserve_snapshot_counter s
  height ← read_reserve_snapshot_counter s'
  ok (record s' { reserve_snapshot = save_snapshot s'.reserve_snapshot height snapshot })
