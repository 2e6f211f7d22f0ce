-- ===== src/Engine/Access.antt =====
-- What a successful update_config of handle.rs and receive_cw20 of contract.rs have done, and who
-- has called them.
use mrgnd_perpetuals.Base.{
  ◌≡◌, refl, sym, String, str_eq, eq_iff, inl, inr, some, ok, err, panic, guard, >>=-eq-ok, arith,
  ap, ℕ, ok-injective, unwrap, Bool-cases,
}
use mrgnd_perpetuals.Cosmwasm.{
  StdResult, StdError, Uint128, Api, Env, MessageInfo, Response, default_response,
}
use mrgnd_perpetuals.Perp.Messages.{Payload}
use mrgnd_perpetuals.Perp.Engine.{ExecuteMsg, Cw20ReceiveMsg, Cw20HookMsg, Side}
use mrgnd_perpetuals.Engine.State.{Imports, Storage, Config, read_config}
use mrgnd_perpetuals.Engine.Opening.{read_config_inv}
use mrgnd_perpetuals.Engine.Handle.{update_config, open_position}
use mrgnd_perpetuals.Engine.Query.{query_config}
use mrgnd_perpetuals.Engine.Contract.{execute, receive_cw20, open_by_hook}

guard_inv :
    (a b : String) (e : StdError) {v : Unit {0}}
    → ◌≡◌ {A = StdResult (Unit {0})} (guard (str_eq a b) e) (ok v)
    → a ≡ b
guard_inv a b e h = elim (Bool-cases (str_eq a b)) [
  | inl same ↦ (eq_iff a b).0 same
  | inr other ↦ absurd (ground arith)
]

module _ (u : Uint128) (api : Api) (host : Imports) (s : Storage) (env : Env) (info : MessageInfo)
    (cw20_msg : Cw20ReceiveMsg) where
  -- The order that a hook stands for.
  open_by_hook_inv :
      (hook : StdResult Cw20HookMsg) {p : Storage × Response Payload}
      → open_by_hook u api host s env info cw20_msg hook ≡ ok p
      → (vamm : String) × (side : Side) × (leverage : ℕ) × (hook
          ≡ ok (Cw20HookMsg.open_position vamm side leverage))
        × (execute u api host s env
              (record { sender = cw20_msg.sender })
              (ExecuteMsg.open_position vamm side cw20_msg.amount leverage)
            ≡ ok p)
  unfolding open_by_hook execute open_position
  open_by_hook_inv (ok (Cw20HookMsg.open_position vamm side leverage)) h =
      (vamm, side, leverage, refl, h)
  open_by_hook_inv (err e) h = cc
  open_by_hook_inv panic h = cc

  -- If a receive of the engine succeeds, then a configuration is stored, the caller's address is
  -- valid as that of the collateral token, the hook message decodes to an order, and the result
  -- is that of a call of open_position with that order by the account that the token names, for
  -- the amount that the token names.
  pub execute-receive_inv :
      {p : Storage × Response Payload}
      → execute u api host s env info (ExecuteMsg.receive cw20_msg) ≡ ok p
      → (config : Config) × (vamm : String) × (side : Side) × (leverage : ℕ) × (s.config
          ≡ some config)
        × (api.addr_validate info.sender ≡ ok config.eligible_collateral)
        × (host.from_binary cw20_msg.msg ≡ ok (Cw20HookMsg.open_position vamm side leverage))
        × (execute u api host s env
              (record { sender = cw20_msg.sender })
              (ExecuteMsg.open_position vamm side cw20_msg.amount leverage)
            ≡ ok p)
  unfolding execute receive_cw20
  execute-receive_inv h =
      let (config, ec, h₁) = >>=-eq-ok (read_config s) _ h in
      let (sender, valid, h₂) = >>=-eq-ok (api.addr_validate info.sender) _ h₁ in
      let (_, same, h₃) = >>=-eq-ok (guard (str_eq config.eligible_collateral sender) _) _ h₂ in
      let (vamm, side, leverage, read, opened) =
        open_by_hook_inv (host.from_binary cw20_msg.msg) h₃ in
      (
        config,
        vamm,
        side,
        leverage,
        read_config_inv s ec,
        rw (guard_inv config.eligible_collateral sender _ same) valid,
        read,
        opened,
      )

unwrap_address_inv :
    (m : StdResult String) {addr : String}
    → ◌≡◌ {A = StdResult String} (unwrap m) (ok addr)
    → m ≡ ok addr
unwrap_address_inv (ok a) h = h
unwrap_address_inv (err e) h = cc
unwrap_address_inv panic h = cc

module _ (u : Uint128) (api : Api) (host : Imports) (s : Storage) (env : Env) (info : MessageInfo)
    (owner : String) {s' : Storage} {r : Response Payload} where
  -- A successful update_config of the engine was called by the owner of a stored configuration
  -- with an address that is valid, replaces the owner by it, keeps the rest of the configuration
  -- and of the storage, and sends nothing; query_config then answers with the new owner and the
  -- old collateral.
  pub execute-update_config_inv :
      execute u api host s env info (ExecuteMsg.update_config owner) ≡ ok (s', r)
      → (config : Config) × (addr : String) × (s.config ≡ some config)
        × (info.sender ≡ config.owner)
        × (api.addr_validate owner ≡ ok addr)
        × (s' ≡ record s { config = some (record config { owner = addr }) })
        × (r ≡ default_response)
        × (query_config s'
            ≡ ok (record { owner = addr; eligible_collateral = config.eligible_collateral }))
  unfolding execute update_config query_config
  execute-update_config_inv h =
      let (config, ec, h₁) = >>=-eq-ok (read_config s) _ h in
      let (_, allowed, h₂) = >>=-eq-ok (guard (str_eq info.sender config.owner) _) _ h₁ in
      let (addr, valid, h₃) = >>=-eq-ok (unwrap (api.addr_validate owner)) _ h₂ in
      let stored : record s { config = some (record config { owner = addr }) } ≡ s' =
        ap (λ (p : Storage × Response Payload). p.0) (ok-injective h₃) in
      (
        config,
        addr,
        read_config_inv s ec,
        guard_inv info.sender config.owner _ allowed,
        unwrap_address_inv (api.addr_validate owner) valid,
        sym stored,
        sym (ap (λ (p : Storage × Response Payload). p.1) (ok-injective h₃)),
        rw (← stored) refl,
      )
