-- ===== src/Pricefeed/Log.antt =====
-- What the price feed promises, apart from its storage: an owner, and for each key a log of prices
-- with their times, to which only the owner adds.
use mrgnd_perpetuals.Base.{
  ℕ, suc, String, str_eq, Option, none, some, List, [], ◌∷◌, ◌++◌, ok, err, panic, if◌then◌else◌,
}
use mrgnd_perpetuals.Cosmwasm.{StdResult, Api}
use mrgnd_perpetuals.Perp.Pricefeed.{ExecuteMsg}
use mrgnd_perpetuals.Pricefeed.State.{PriceData, default_price, length}

-- A price and its time.
abbrev pub Entry : Type 0
Entry = ℕ × ℕ

-- The logs have their last entry first.
pub record Feed : Type 0 where
  pub owner : String
  pub log : String → List Entry

abbrev pub value : {A : Type 0} → StdResult A → Option A
value (ok a) = some a
value (err e) = none
value panic = none

-- Prices with their times, for which every time is to be read and none to be missing or left.
unfoldable pub entries : Api → List ℕ → List ℕ → Option (List Entry)
entries api [] [] = some []
entries api [] (t ∷ ts) = none
entries api (p ∷ ps) [] = none
entries api (p ∷ ps) (t ∷ ts) =
    let later = entries api ps ts in
    elim (value (api.from_seconds t)) [
      | none ↦ none
      | some time ↦ elim later [ none ↦ none | some es ↦ some (es ++ ((p, time) ∷ [])) ]
    ]

abbrev pub publish : Feed → String → Option (List Entry) → Feed
publish f key none = f
publish f key (some es) = record f { log = λ k. if str_eq k key then es ++ f.log key else f.log k }

abbrev pub hand_over : Feed → Option String → Feed
hand_over f none = f
hand_over f (some owner) = record f { owner = owner }

-- The owner's call; a change of the owner is by a valid address.
abbrev pub accepted : Api → Feed → ExecuteMsg → Feed
accepted api f (ExecuteMsg.append_price key price timestamp) =
    publish f key (entries api (price ∷ []) (timestamp ∷ []))
accepted api f (ExecuteMsg.append_multiple_price key prices timestamps) =
    publish f key (entries api prices timestamps)
accepted api f (ExecuteMsg.update_config none) = f
accepted api f (ExecuteMsg.update_config (some owner)) =
    hand_over f (value (api.addr_validate owner))

unfoldable pub call_feed : Api → Feed → String → ExecuteMsg → Feed
call_feed api f sender msg = if str_eq sender f.owner then accepted api f msg else f

-- The rounds that a log stands for.
abbrev pub numbered : List Entry → List PriceData
numbered [] = default_price ∷ []
numbered ((price, time) ∷ es) =
    (record { round_id = suc (length es); price = price; timestamp = time }) ∷ numbered es
