-- ===== src/Pricefeed/Rounds.antt =====
-- The rounds of a key and their numbering, and the handlers of handle.rs that append to them.
use mrgnd_perpetuals.Base.{
  ℕ, ◌≡◌, ◌≢◌, refl, String, str_eq, eq_iff, Option, none, some, List, [], ◌∷◌, ok, err, panic,
  arith, Bool-cases, inl, inr, ◌>>=◌, ◌>>◌, guard, map_err, >>=-eq-ok, sym, ◌∙◌, ok-injective, ap,
  ◌==◌,
}
use mrgnd_perpetuals.Cosmwasm.{Api, MessageInfo, StdResult, Response, default_response}
use mrgnd_perpetuals.Perp.Messages.{Payload}
use mrgnd_perpetuals.Pricefeed.State.{
  std, unauthorized, Config, Storage, PriceData, default_price, prices_or_default, length, load,
  store_price_data, save_prices,
}
use mrgnd_perpetuals.Pricefeed.Handle.{Handled, append_price, append_multiple_price, store_each}

-- The list of a key, its last round first, ends in the round of zeros, and each round is numbered
-- by how many stand before it.
abbrev pub IsNumbered : List PriceData → Type 0
IsNumbered [] = ⊥
IsNumbered (x ∷ []) = x ≡ default_price
IsNumbered (x ∷ y ∷ ys) = (x.round_id ≡ length (y ∷ ys)) × IsNumbered (y ∷ ys)

-- What a key reads as.
abbrev pub rounds : Storage → String → List PriceData
rounds s key = prices_or_default (s.prices key)

abbrev pub HasRounds : Storage → Type 0
HasRounds s = (key : String) → IsNumbered (rounds s key)

abbrev pub extended : Storage → String → PriceData → Storage
extended s key x = record s { prices = save_prices s.prices key (x ∷ rounds s key) }

pub store_price_data-extended :
    (api : Api) (s : Storage) (key : String) (price timestamp : ℕ)
    → store_price_data api s key price timestamp ≡ (
        api.from_seconds timestamp >>= λ time. ok (
          extended s key
            (record { round_id = length (rounds s key); price = price; timestamp = time })))
unfolding store_price_data
store_price_data-extended api s key price timestamp = ground arith

IsNumbered-cons :
    (x : PriceData) (xs : List PriceData)
    → x.round_id ≡ length xs
    → IsNumbered xs
    → IsNumbered (x ∷ xs)
IsNumbered-cons x [] e v = absurd v
IsNumbered-cons x (y ∷ ys) e v = (e, v)

pub rounds-extended_self :
    (s : Storage) (key : String) (x : PriceData) → rounds (extended s key x) key ≡ x ∷ rounds s key
rounds-extended_self s key x = ground (arith, eq_iff key key)

pub rounds-extended_ne :
    (s : Storage) (key other : String) (x : PriceData)
    → other ≢ key
    → rounds (extended s key x) other ≡ rounds s other
rounds-extended_ne s key other x h = ground (arith, eq_iff other key)

extended-HasRounds :
    (s : Storage) (key : String) (x : PriceData)
    → x.round_id ≡ length (rounds s key)
    → HasRounds s
    → HasRounds (extended s key x)
extended-HasRounds s key x e v other = elim (Bool-cases (str_eq other key)) [
  | inl hit ↦ rw hit (IsNumbered-cons x (rounds s key) e (v key))
  | inr miss ↦ rw miss (v other)
]

-- The round that a call appends.
abbrev pub next_round : Storage → String → ℕ → ℕ → PriceData
next_round s key price time = record {
  round_id = length (rounds s key);
  price = price;
  timestamp = time;
}

pub store_price_data_inv :
    (api : Api) (s : Storage) (key : String) (price timestamp : ℕ) {s' : Storage}
    → store_price_data api s key price timestamp ≡ ok s'
    → (time : ℕ) × (api.from_seconds timestamp ≡ ok time)
      × (s' ≡ extended s key (next_round s key price time))
store_price_data_inv api s key price timestamp h =
    let (time, read, e) =
      >>=-eq-ok (api.from_seconds timestamp) _
        (sym (store_price_data-extended api s key price timestamp) ∙ h) in
    (time, read, sym (ok-injective e))

pub store_price_data-HasRounds :
    (api : Api) (s : Storage) (key : String) (price timestamp : ℕ) {s' : Storage}
    → HasRounds s
    → store_price_data api s key price timestamp ≡ ok s'
    → HasRounds s'
store_price_data-HasRounds api s key price timestamp v h =
    let (time, _, e) = store_price_data_inv api s key price timestamp h in
    rw e (extended-HasRounds s key (next_round s key price time) refl v)

pub store_each-HasRounds :
    (api : Api) (s : Storage) (key : String) (prices timestamps : List ℕ) {s' : Storage}
    → HasRounds s
    → store_each api s key prices timestamps ≡ ok s'
    → HasRounds s'
unfolding store_each
store_each-HasRounds api s key [] timestamps v h = rw (sym (ok-injective h)) v
store_each-HasRounds api s key (price ∷ prices) [] v h = cc
store_each-HasRounds api s key (price ∷ prices) (timestamp ∷ timestamps) v h =
    let (s₁, one, rest) = >>=-eq-ok (store_price_data api s key price timestamp) _ h in
    store_each-HasRounds api s₁ key prices timestamps
      (store_price_data-HasRounds api s key price timestamp v one) rest

-- A handler that tests the sender first, and fails without the test passed.
abbrev pub owned : Option Config → MessageInfo → Handled → Handled
owned config info k = do
  c ← map_err std (load config)
  guard (str_eq info.sender c.owner) unauthorized
  k

pub owned_inv :
    (config : Option Config) (info : MessageInfo) (k : Handled) {p : Storage × Response Payload}
    → owned config info k ≡ ok p
    → (c : Config) × (config ≡ some c) × (info.sender ≡ c.owner) × (k ≡ ok p)
owned_inv none info k h = cc
owned_inv (some c) info k h = elim (Bool-cases (str_eq info.sender c.owner)) [
  | inl same ↦ (c, refl, (eq_iff info.sender c.owner).0 same, rw same at h)
  | inr other ↦ absurd (ground arith)
]

pub owned-unauthorized :
    (config : Option Config) (info : MessageInfo) (k : Handled) {c : Config}
    → config ≡ some c
    → info.sender ≢ c.owner
    → owned config info k ≡ err unauthorized
owned-unauthorized config info k {c} e other = rw e (ground (arith, eq_iff info.sender c.owner))

-- What is stored, as a result of a handler.
abbrev pub stored : StdResult Storage → Handled
stored m = map_err std m >>= λ s'. ok (s', default_response)

pub stored_inv :
    (m : StdResult Storage) {p : Storage × Response Payload} → stored m ≡ ok p → m ≡ ok p.0
stored_inv (ok s') h =
    ap (λ (t : Storage). ok t) (ap (λ (q : Storage × Response Payload). q.0) (ok-injective h))
stored_inv (err e) h = cc
stored_inv panic h = cc

pub append_price-owned :
    (api : Api) (s : Storage) (info : MessageInfo) (key : String) (price timestamp : ℕ)
    → append_price api s info key price timestamp
      ≡ owned s.config info (stored (store_price_data api s key price timestamp))
unfolding append_price
append_price-owned api s info key price timestamp = refl

pub append_multiple_price-owned :
    (api : Api) (s : Storage) (info : MessageInfo) (key : String) (prices timestamps : List ℕ)
    → append_multiple_price api s info key prices timestamps
      ≡ owned s.config info (
          guard (length prices == length timestamps) unauthorized
          >> stored (store_each api s key prices timestamps))
unfolding append_multiple_price
append_multiple_price-owned api s info key prices timestamps = refl
