-- ===== src/Pricefeed/Refines.antt =====
-- The price feed against the logs of Log: the handlers of handle.rs, any sequence of calls, and the
-- queries of query.rs.
use mrgnd_perpetuals.Base.{
  ℕ, ◌≡◌, ◌≢◌, refl, ◌∙◌, String, str_eq, eq_iff, Bool-cases, inl, inr, Option, none, some, List,
  [], ◌∷◌, ok, err, panic, ◌>>=◌, ◌>>◌, guard, ◌==◌, true, arith,
}
use mrgnd_perpetuals.Cosmwasm.{StdResult, Api, Env, MessageInfo}
use mrgnd_perpetuals.Perp.Pricefeed.{ExecuteMsg}
use mrgnd_perpetuals.Pricefeed.State.{Storage, Config, length, store_price_data, unauthorized}
use mrgnd_perpetuals.Pricefeed.Handle.{Handled, store_each, set_owner}
use mrgnd_perpetuals.Pricefeed.Contract.{execute}
use mrgnd_perpetuals.Pricefeed.Rounds.{
  rounds, owned, stored, append_price-owned, append_multiple_price-owned,
}
use mrgnd_perpetuals.Pricefeed.Appends.{execute-unauthorized, update_config-set_config, set_config}
use mrgnd_perpetuals.Pricefeed.Log.{
  Entry, Feed, value, entries, publish, hand_over, accepted, call_feed, numbered,
}
use mrgnd_perpetuals.Pricefeed.Entries.{Stores, store_each-Stores, store_each-one, entries-length}

-- The storage has a configuration with the feed's owner, and the rounds of its logs.
abbrev pub Represents : Feed → Storage → Type 0
Represents f s =
    ((c : Config) × (s.config ≡ some c) × (c.owner ≡ f.owner))
    × ((key : String) → rounds s key ≡ numbered (f.log key))

-- The storage after a call that began with `s`.
abbrev pub settled : Storage → Handled → Storage
settled s (ok (s', r)) = s'
settled s (err e) = s
settled s panic = s

published-Represents :
    (f : Feed) (s : Storage) (key : String) (found : Option (List Entry)) (m : StdResult Storage)
    → Represents f s
    → Stores s key (f.log key) found m
    → Represents (publish f key found) (settled s (stored m))
published-Represents f s key none (ok s') v fails = absurd (fails s' refl)
published-Represents f s key none (err e) v fails = v
published-Represents f s key none panic v fails = v
published-Represents f s key (some es) m ((c, ec, owner), v) (s', same, (config, here, others)) =
    rw same (
      (c, config ∙ ec, owner),
      λ other. elim (Bool-cases (str_eq other key)) [
        | inl hit ↦ rw (hit, (eq_iff other key).0 hit) here
        | inr miss ↦ rw miss (others other (ground (arith, eq_iff other key)) ∙ v other)
      ],
    )

owned-ok :
    (config : Option Config) (info : MessageInfo) (k : Handled) {c : Config}
    → config ≡ some c
    → str_eq info.sender c.owner ≡ true
    → owned config info k ≡ k
owned-ok config info k e same = rw (e, same) refl

module _ (api : Api) (f : Feed) (s : Storage) (info : MessageInfo) (v : Represents f s) where
  append_multiple_price-Represents :
      (key : String) (prices timestamps : List ℕ)
      → Represents (publish f key (entries api prices timestamps)) (
          settled s (
            guard (length prices == length timestamps) unauthorized
            >> stored (store_each api s key prices timestamps)))
  append_multiple_price-Represents key prices timestamps =
      elim (Bool-cases (length prices == length timestamps)) [
        | inl same ↦ rw same (
            published-Represents f s key (entries api prices timestamps)
              (store_each api s key prices timestamps) v
              (store_each-Stores api key prices timestamps s (f.log key) (ground arith) (v.1 key)))
        | inr differ ↦ rw (differ, entries-length api key prices timestamps (ground arith)) v
      ]

  append_price-Represents :
      (key : String) (price timestamp : ℕ)
      → Represents
          (publish f key (entries api (price ∷ []) (timestamp ∷ [])))
          (settled s (stored (store_price_data api s key price timestamp)))
  append_price-Represents key price timestamp = rw (← store_each-one api key s price timestamp) (
      published-Represents f s key (entries api (price ∷ []) (timestamp ∷ []))
        (store_each api s key (price ∷ []) (timestamp ∷ [])) v
        (store_each-Stores api key (price ∷ []) (timestamp ∷ []) s (f.log key) refl (v.1 key)))

  set_config-Represents :
      (o : StdResult String) (c : Config)
      → Represents
          (hand_over f (value o))
          (settled s (set_config s (o >>= λ owner. ok (record c { owner = owner }))))
  set_config-Represents (ok owner) c = ((record c { owner = owner }, refl, refl), v.1)
  set_config-Represents (err e) c = v
  set_config-Represents panic c = v

  accepted-Represents :
      (env : Env) (msg : ExecuteMsg)
      → str_eq info.sender f.owner ≡ true
      → Represents (accepted api f msg) (settled s (execute api s env info msg))
  unfolding execute set_owner
  accepted-Represents env (ExecuteMsg.append_price key price timestamp) same =
      let ((c, ec, owner), _) = v in
      let is_owner : str_eq info.sender c.owner ≡ true = rw owner same in
      rw
        (
          append_price-owned api s info key price timestamp,
          owned-ok s.config info (stored (store_price_data api s key price timestamp)) ec is_owner,
        )
        (append_price-Represents key price timestamp)
  accepted-Represents env (ExecuteMsg.append_multiple_price key prices timestamps) same =
      let ((c, ec, owner), _) = v in
      let is_owner : str_eq info.sender c.owner ≡ true = rw owner same in
      rw
        (
          append_multiple_price-owned api s info key prices timestamps,
          owned-ok s.config info
              (guard (length prices == length timestamps) unauthorized
                >> stored (store_each api s key prices timestamps))
              ec is_owner,
        )
        (append_multiple_price-Represents key prices timestamps)
  accepted-Represents env (ExecuteMsg.update_config none) same =
      let ((c, ec, owner), _) = v in
      let is_owner : str_eq info.sender c.owner ≡ true = rw owner same in
      rw (update_config-set_config api s info none, ec, is_owner) ((c, refl, owner), v.1)
  accepted-Represents env (ExecuteMsg.update_config (some new)) same =
      let ((c, ec, owner), _) = v in
      let is_owner : str_eq info.sender c.owner ≡ true = rw owner same in
      simp (update_config-set_config api s info (some new), ec, is_owner)
        (set_config-Represents (api.addr_validate new) c)

  refused :
      (env : Env) (msg : ExecuteMsg)
      → info.sender ≢ f.owner
      → settled s (execute api s env info msg) ≡ s
  refused env msg other =
      let ((c, ec, owner), _) = v in
      rw (execute-unauthorized api s env info msg ec (rw owner other)) refl

  pub call_feed-Represents :
      (env : Env) (msg : ExecuteMsg)
      → Represents (call_feed api f info.sender msg) (settled s (execute api s env info msg))
  unfolding call_feed
  call_feed-Represents env msg = elim (Bool-cases (str_eq info.sender f.owner)) [
    | inl same ↦ rw same (accepted-Represents env msg same)
    | inr other ↦ rw (other, refused env msg (ground (arith, eq_iff info.sender f.owner))) v
  ]
