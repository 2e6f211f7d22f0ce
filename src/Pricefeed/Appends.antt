-- ===== src/Pricefeed/Appends.antt =====
-- The price feed's handlers: who may call them, what a later query sees, and the numbering.
use mrgnd_perpetuals.Base.{
  ◌≡◌, ◌≢◌, refl, String, str_eq, eq_iff, Option, none, some, List, ok, err, panic, arith,
  Bool-cases, inl, inr, ◌>>=◌, ◌>>◌, guard, map_err, >>=-eq-ok, sym, subst, ◌∙◌, ◌==◌,
}
use mrgnd_perpetuals.Cosmwasm.{Api, Env, MessageInfo, StdResult, Response, default_response}
use mrgnd_perpetuals.Perp.Messages.{Payload}
use mrgnd_perpetuals.Perp.Pricefeed.{ExecuteMsg}
use mrgnd_perpetuals.Pricefeed.State.{
  std, unauthorized, Config, Storage, PriceData, load, length, prices_or_default, store_price_data,
}
use mrgnd_perpetuals.Pricefeed.Handle.{Handled, update_config, set_owner}
use mrgnd_perpetuals.Pricefeed.Contract.{execute}
use mrgnd_perpetuals.Pricefeed.Rounds.{
  IsNumbered, HasRounds, store_price_data-HasRounds, store_each-HasRounds, owned_inv,
  owned-unauthorized, stored, stored_inv, append_price-owned, append_multiple_price-owned,
}

-- Only the owner's calls can succeed, with any message.
abbrev pub set_config : Storage → StdResult Config → Handled
set_config s m =
    map_err std m >>= λ config'. ok (record s { config = some config' }, default_response)

set_config-prices :
    (s : Storage) (m : StdResult Config) {p : Storage × Response Payload}
    → set_config s m ≡ ok p
    → p.0.prices ≡ s.prices
set_config-prices s (ok config) h = ground arith
set_config-prices s (err e) h = cc
set_config-prices s panic h = cc

pub update_config-set_config :
    (api : Api) (s : Storage) (info : MessageInfo) (owner : Option String)
    → update_config api s info owner ≡ (
        map_err std (load s.config) >>= λ c.
        guard (str_eq info.sender c.owner) unauthorized >> set_config s (set_owner api c owner))
unfolding update_config
update_config-set_config api s info owner = refl

update_config_inv :
    (s : Storage) (config : Option Config) (info : MessageInfo) (k : Config → StdResult Config)
    {p : Storage × Response Payload}
    → (map_err std (load config) >>= λ c.
        guard (str_eq info.sender c.owner) unauthorized >> set_config s (k c))
      ≡ ok p
    → (c : Config) × (config ≡ some c) × (info.sender ≡ c.owner) × (p.0.prices ≡ s.prices)
update_config_inv s none info k h = cc
update_config_inv s (some c) info k h = elim (Bool-cases (str_eq info.sender c.owner)) [
  | inl same ↦
      (c, refl, (eq_iff info.sender c.owner).0 same, set_config-prices s (k c) (rw same at h))
  | inr other ↦ absurd (ground arith)
]

-- If the rounds of every key are numbered without a gap from the round of zeros, they are so
-- after a successful call of execute with any message, and the caller is the owner.
pub execute-HasRounds :
    (api : Api) (s : Storage) (env : Env) (info : MessageInfo) (msg : ExecuteMsg) {s' : Storage}
    {r : Response Payload}
    → HasRounds s
    → execute api s env info msg ≡ ok (s', r)
    → HasRounds s' × ((c : Config) × (s.config ≡ some c) × (info.sender ≡ c.owner))
unfolding execute
execute-HasRounds api s env info (ExecuteMsg.append_price key price timestamp) {s'} {r} v h =
    let (c, e, same, k) =
      owned_inv s.config info (stored (store_price_data api s key price timestamp)) {p = (s', r)}
        (sym (append_price-owned api s info key price timestamp) ∙ h) in
    (store_price_data-HasRounds api s key price timestamp v (stored_inv _ k), (c, e, same))
execute-HasRounds api s env info (ExecuteMsg.append_multiple_price key prices timestamps) {s'} {r} v
      h =
    let (c, e, same, k) =
      owned_inv s.config info _ {p = (s', r)}
        (sym (append_multiple_price-owned api s info key prices timestamps) ∙ h) in
    let (_, _, k') = >>=-eq-ok (guard (length prices == length timestamps) unauthorized) _ k in
    (store_each-HasRounds api s key prices timestamps v (stored_inv _ k'), (c, e, same))
execute-HasRounds api s env info (ExecuteMsg.update_config owner) {s'} {r} v h =
    let (c, e, same, kept) =
      update_config_inv s s.config info (λ c. set_owner api c owner) {p = (s', r)}
        (sym (update_config-set_config api s info owner) ∙ h) in
    (
      λ key.
          subst (λ (f : String → Option (List PriceData)). IsNumbered (prices_or_default (f key)))
            (sym kept) (v key),
      (c, e, same),
    )

-- With a stored configuration, a call of the price feed's execute by anybody but the owner is
-- the error `unauthorized`, whatever the message.
pub execute-unauthorized :
    (api : Api) (s : Storage) (env : Env) (info : MessageInfo) (msg : ExecuteMsg) {c : Config}
    → s.config ≡ some c
    → info.sender ≢ c.owner
    → execute api s env info msg ≡ err unauthorized
unfolding execute
execute-unauthorized api s env info (ExecuteMsg.append_price key price timestamp) e other =
    append_price-owned api s info key price timestamp ∙ owned-unauthorized s.config info _ e other
execute-unauthorized api s env info (ExecuteMsg.append_multiple_price key prices timestamps) e
      other =
    append_multiple_price-owned api s info key prices timestamps
    ∙ owned-unauthorized s.config info _ e other
execute-unauthorized api s env info (ExecuteMsg.update_config owner) {c} e other =
    rw (update_config-set_config api s info owner, e) (ground (arith, eq_iff info.sender c.owner))
