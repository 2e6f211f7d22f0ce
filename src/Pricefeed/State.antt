-- ===== src/Pricefeed/State.antt =====
-- contracts/margined_pricefeed/src/state.rs and error.rs. A `Vec` is a list with its last element
-- first, so `push` is `∷`, `last` is the head and `pop` is the tail.
use mrgnd_perpetuals.Base.{
  ℕ, suc, String, Option, none, some, List, [], ◌∷◌, ok, err, ◌>>=◌, unwrap, str_eq, if◌then◌else◌,
}
use mrgnd_perpetuals.Cosmwasm.{StdError, StdResult, not_found, Api}

pub data ContractError : Type 0 where
  std : StdError → ContractError
  unauthorized : ContractError
  no_price_data : String → ContractError

pub record Config : Type 0 where
  pub owner : String
  pub decimals : ℕ

pub record PriceData : Type 0 where
  pub round_id : ℕ
  pub price : ℕ
  pub timestamp : ℕ

pub record Storage : Type 0 where
  pub config : Option Config
  pub prices : String → Option (List PriceData)

abbrev pub empty_storage : Storage
empty_storage = record { config = none; prices = λ _. none }

-- `PriceData::default()`
abbrev pub default_price : PriceData
default_price = record { round_id = 0; price = 0; timestamp = 0 }

module _ {ℓ} {A : Type ℓ} where
  abbrev pub length : List A → ℕ
  length [] = 0
  length (x ∷ xs) = suc (length xs)

abbrev pub last : List PriceData → Option PriceData
last [] = none
last (x ∷ xs) = some x

abbrev pub pop : List PriceData → List PriceData
pop [] = []
pop (x ∷ xs) = xs

unfoldable pub store_config : Storage → Config → StdResult Storage
store_config s config = ok (record s { config = some config })

abbrev pub load : {A : Type 0} → Option A → StdResult A
load none = err not_found
load (some a) = ok a

unfoldable pub read_config : Storage → StdResult Config
read_config s = load s.config

-- A key without prices reads as one round of zeros.
abbrev pub prices_or_default : Option (List PriceData) → List PriceData
prices_or_default none = default_price ∷ []
prices_or_default (some prices) = prices

unfoldable pub read_price_data : Storage → String → StdResult (List PriceData)
read_price_data s key = ok (prices_or_default (s.prices key))

-- `PRICES.save`
abbrev pub save_prices :
    (String → Option (List PriceData)) → String → List PriceData → String → Option (List PriceData)
save_prices prices key new k = if str_eq k key then some new else prices k

unfoldable pub store_price_data : Api → Storage → String → ℕ → ℕ → StdResult Storage
unfolding read_price_data
store_price_data api s key price timestamp = do
  prices ← unwrap (read_price_data s key)
  time ← api.from_seconds timestamp
  let price_data : PriceData = record { round_id = length prices; price = price; timestamp = time }
  ok (record s { prices = save_prices s.prices key (price_data ∷ prices) })
