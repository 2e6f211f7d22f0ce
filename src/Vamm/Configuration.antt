-- ===== src/Vamm/Configuration.antt =====
-- update_config of handle.rs: who may call it and what it changes.
use mrgnd_perpetuals.Base.{
  ℕ, ◌≡◌, refl, sym, ◌∙◌, ◌⊎◌, inl, inr, String, str_eq, eq_iff, Option, none, some, ok, err, panic,
  ◌>>=◌, ◌>>◌, guard, >>=-eq-ok, map_err, arith,
}
use mrgnd_perpetuals.Cosmwasm.{StdResult, Api, MessageInfo, Response, default_response}
use mrgnd_perpetuals.Perp.Messages.{Payload}
use mrgnd_perpetuals.Vamm.State.{Config, Storage, std, unauthorized}
use mrgnd_perpetuals.Vamm.Handle.{
  Handled, update_config, set_owner, set_toll_ratio, set_spread_ratio,
}

abbrev pub get_or : Option ℕ → ℕ → ℕ
get_or none d = d
get_or (some n) d = n

-- `new` is `old` with the given ratios, and with the owner `owner` if it is given and valid.
pub record Updated (api : Api) (owner : Option String) (toll_ratio spread_ratio : Option ℕ)
    (old new : Config) : Type 0 where
  pub quote_asset_kept : new.quote_asset ≡ old.quote_asset
  pub base_asset_kept : new.base_asset ≡ old.base_asset
  pub decimals_kept : new.decimals ≡ old.decimals
  pub toll_set : new.toll_ratio ≡ get_or toll_ratio old.toll_ratio
  pub spread_set : new.spread_ratio ≡ get_or spread_ratio old.spread_ratio
  pub owner_set :
      ((owner ≡ none) × (new.owner ≡ old.owner))
      ⊎ ((o : String) × (owner ≡ some o) × (api.addr_validate o ≡ ok new.owner))

-- What `set_owner` and the two setters of ratios leave alone.
OwnerSet : Api → Option String → Config → Config → Type 0
OwnerSet api owner old new =
    ((owner ≡ none) × (new.owner ≡ old.owner))
    ⊎ ((o : String) × (owner ≡ some o) × (api.addr_validate o ≡ ok new.owner))

set_owner_inv :
    (api : Api) (c : Config) (owner : Option String) {c' : Config}
    → set_owner api c owner ≡ ok c'
    → OwnerSet api owner c c' × (c' ≡ record c { owner = c'.owner })
unfolding set_owner OwnerSet
set_owner_inv api c none h = (inl (refl, ground arith), ground arith)
set_owner_inv api c (some o) {c'} h =
    let (addr, e, f) = >>=-eq-ok (api.addr_validate o) _ h in
    (inr (o, refl, ground arith), ground arith)

set_ratios-Updated :
    (api : Api) (owner : Option String) (toll_ratio spread_ratio : Option ℕ) (old new : Config)
    → OwnerSet api owner old new
    → new ≡ record old { owner = new.owner }
    → Updated api owner toll_ratio spread_ratio old
        (set_spread_ratio (set_toll_ratio new toll_ratio) spread_ratio)
unfolding set_toll_ratio set_spread_ratio OwnerSet
set_ratios-Updated api owner none none old new o e = ground arith
set_ratios-Updated api owner (some t) none old new o e = ground arith
set_ratios-Updated api owner none (some p) old new o e = ground arith
set_ratios-Updated api owner (some t) (some p) old new o e = ground arith

module _ (api : Api) (s : Storage) (info : MessageInfo) (owner : Option String)
    (toll_ratio spread_ratio : Option ℕ) {c : Config} (ec : s.config ≡ some c) where
  abbrev store_ratios : Config → Handled
  store_ratios c₁ = ok (
    record s { config = some (set_spread_ratio (set_toll_ratio c₁ toll_ratio) spread_ratio) },
    default_response,
  )

  update_config-store_ratios : update_config api s info owner toll_ratio spread_ratio ≡ (
      guard (str_eq info.sender c.owner) unauthorized
      >> (map_err std (set_owner api c owner) >>= store_ratios))
  unfolding update_config
  update_config-store_ratios = ground arith

  store_ratios_inv :
      (m : StdResult Config) {s' : Storage} {r : Response Payload}
      → (guard (str_eq info.sender c.owner) unauthorized >> (map_err std m >>= store_ratios))
        ≡ ok (s', r)
      → (c₁ : Config) × (info.sender ≡ c.owner) × (m ≡ ok c₁) × (store_ratios c₁ ≡ ok (s', r))
  store_ratios_inv (ok c₁) h = (c₁, ground (arith, eq_iff info.sender c.owner), refl, ground arith)
  store_ratios_inv (err e) h = ground arith
  store_ratios_inv panic h = ground arith

  -- With a stored configuration, a successful update_config of the vAMM was called by the owner,
  -- sets the given ratios and the given owner if its address is valid, keeps the assets, the
  -- decimals and what was not given, changes nothing else of the storage, and sends nothing.
  pub update_config_inv :
      {s' : Storage} {r : Response Payload}
      → update_config api s info owner toll_ratio spread_ratio ≡ ok (s', r)
      → (c' : Config) × (info.sender ≡ c.owner)
        × Updated api owner toll_ratio spread_ratio c c'
        × (s' ≡ record s { config = some c' })
        × (r ≡ default_response)
  update_config_inv h =
      let (c₁, allowed, owned, stored) =
        store_ratios_inv (set_owner api c owner) (sym update_config-store_ratios ∙ h) in
      let (o, e) = set_owner_inv api c owner owned in
      (
        set_spread_ratio (set_toll_ratio c₁ toll_ratio) spread_ratio,
        allowed,
        set_ratios-Updated api owner toll_ratio spread_ratio c c₁ o e,
        cc,
        cc,
      )
