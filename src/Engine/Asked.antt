-- ===== src/Engine/Asked.antt =====
-- What the handlers of handle.rs and contract.rs send.
use mrgnd_perpetuals.Base.{
  ℕ, String, ◌≡◌, ◌⊎◌, inl, inr, refl, [], ◌∷◌, ok, err, panic, guard, Bool, true, false, str_eq,
  Bool-cases, if◌then◌else◌, unwrap, ltb, Ensures, Ensures-ok, Ensures-err, Ensures-panic,
  Ensures-mono, Ensures->>=,
}
use mrgnd_perpetuals.Cosmwasm.{
  StdError, StdResult, generic_err, Uint128, Api, Env, MessageInfo, SubMsg, always, Response,
}
use mrgnd_perpetuals.Perp.Messages.{Payload}
use mrgnd_perpetuals.Perp.Engine.{Side, ExecuteMsg, Cw20ReceiveMsg, Cw20HookMsg}
use mrgnd_perpetuals.Engine.State.{Imports, Storage, position_key, read_config}
use mrgnd_perpetuals.Engine.Utils.{require_vamm, direction_to_side}
use mrgnd_perpetuals.Engine.Querier.{query_vamm_output_price}
use mrgnd_perpetuals.Engine.Handle.{
  position_or_new, is_increase, internal_increase_position, open_reverse_position, open_position,
  close_position, update_config, swap_input, swap_output, swap_increase_reply_id,
  swap_decrease_reply_id, swap_reverse_reply_id, swap_close_reply_id,
}
use mrgnd_perpetuals.Engine.Closing.{close_msg, close_position_inv}
use mrgnd_perpetuals.Engine.Contract.{execute, receive_cw20, open_by_hook}

-- One message, that asks for a reply.
abbrev pub Asks : Storage × Response Payload → Type 0
Asks (s, r) = (m : SubMsg Payload) × (r.messages ≡ m ∷ []) × (m.reply_on ≡ always)

-- No message, and the pending swap as it was.
abbrev pub Keeps : Storage → Storage × Response Payload → Type 0
Keeps s (s', r) = (r.messages ≡ []) × (s'.tmp_swap ≡ s.tmp_swap)

abbrev Asking : SubMsg Payload → Type 0
Asking m = m.reply_on ≡ always

swap_input-Asking :
    (vamm : String) (side : Side) (n id : ℕ)
    → Ensures {E = StdError} Asking (unwrap (swap_input vamm side n id))
unfolding swap_input
swap_input-Asking vamm side n id = Ensures-ok Asking _ refl

swap_output-Asking :
    (vamm : String) (side : Side) (n id : ℕ)
    → Ensures {E = StdError} Asking (unwrap (swap_output vamm side n id))
unfolding swap_output
swap_output-Asking vamm side n id = Ensures-ok Asking _ refl

module _ (u : Uint128) (api : Api) (host : Imports) (s : Storage) (env : Env)
    (info : MessageInfo) where
  open_reverse_position-Asking :
      (vamm trader : String) (side : Side) (n : ℕ)
      → Ensures Asking (open_reverse_position host env s vamm trader side n)
  unfolding open_reverse_position
  open_reverse_position-Asking vamm trader side n =
      let position =
        position_or_new env vamm trader side (s.position (position_key host vamm trader)) in
      Ensures->>= Asking
        (unwrap (query_vamm_output_price host vamm position.direction position.size))
        (λ current_notional.
          if ltb n current_notional
          then unwrap (swap_input vamm side n swap_decrease_reply_id)
          else unwrap (
              swap_output vamm (direction_to_side position.direction) position.size
                swap_reverse_reply_id))
        λ current_notional _. elim (Bool-cases (ltb n current_notional)) [
          | inl less ↦ rw less (swap_input-Asking vamm side n swap_decrease_reply_id)
          | inr more ↦ rw more (
              swap_output-Asking vamm (direction_to_side position.direction) position.size
                swap_reverse_reply_id)
        ]

  -- The message of an order, for a position that it adds to or not.
  ordered-Asking :
      (increase : Bool) (vamm trader : String) (side : Side) (n : ℕ)
      → Ensures Asking (
          if increase
          then internal_increase_position vamm side n
          else open_reverse_position host env s vamm trader side n)
  unfolding internal_increase_position
  ordered-Asking true vamm trader side n = swap_input-Asking vamm side n swap_increase_reply_id
  ordered-Asking false vamm trader side n = open_reverse_position-Asking vamm trader side n

  open_position-Asks :
      (vamm_addr trader_addr : String) (side : Side) (quote_asset_amount leverage : ℕ)
      → Ensures Asks (
          open_position u api host s env info vamm_addr trader_addr side quote_asset_amount
            leverage)
  unfolding open_position
  open_position-Asks vamm_addr trader_addr side quote_asset_amount leverage =
      Ensures->>= Asks (api.addr_validate vamm_addr) _ λ vamm _.
        Ensures->>= Asks (api.addr_validate trader_addr) _ λ trader _.
          Ensures->>= Asks (require_vamm s vamm) _ λ registered _.
            Ensures->>= Asks (read_config s) _ λ config _.
              Ensures->>= Asks (u.checked_mul quote_asset_amount leverage) _ λ leveraged _.
                Ensures->>= Asks (u.checked_div leveraged config.decimals) _ λ n _.
                  let position =
                    position_or_new env vamm trader side
                      (s.position (position_key host vamm trader)) in
                  Ensures->>= Asks
                    (if is_increase position.direction side
                      then internal_increase_position vamm side n
                      else open_reverse_position host env s vamm trader side n)
                    _
                    λ msg sent. Ensures-ok Asks _ (
                      msg,
                      refl,
                      (ordered-Asking (is_increase position.direction side) vamm trader side
                            n).holds
                          msg sent,
                    )

  close_position-Asks :
      (vamm_addr trader_addr : String) (id : ℕ)
      → Ensures Asks (close_position api host s env info vamm_addr trader_addr id)
  close_position-Asks vamm_addr trader_addr id = record {
    holds = λ (s', r) e.
        let (v, t, position, _, _, sent) =
          close_position_inv api host s env info vamm_addr trader_addr id e in
        (close_msg v position id, sent, refl);
  }

  update_config-Keeps : (owner : String) → Ensures (Keeps s) (update_config api s info owner)
  unfolding update_config
  update_config-Keeps owner = Ensures->>= (Keeps s) (read_config s) _ λ config _.
      Ensures->>= (Keeps s) (guard (str_eq info.sender config.owner) (generic_err "unauthorized")) _
        λ _ _.
          Ensures->>= (Keeps s) (unwrap (api.addr_validate owner)) _
            λ addr _. Ensures-ok (Keeps s) _ (refl, refl)

  open_by_hook-Asks :
      (msg : Cw20ReceiveMsg) (hook : StdResult Cw20HookMsg)
      → Ensures Asks (open_by_hook u api host s env info msg hook)
  unfolding open_by_hook
  open_by_hook-Asks msg (ok (Cw20HookMsg.open_position vamm side leverage)) =
      open_position-Asks vamm msg.sender side msg.amount leverage
  open_by_hook-Asks msg (err e) = Ensures-err Asks _
  open_by_hook-Asks msg panic = Ensures-panic Asks

  receive_cw20-Asks : (msg : Cw20ReceiveMsg) → Ensures Asks (receive_cw20 u api host s env info msg)
  unfolding receive_cw20
  receive_cw20-Asks msg = Ensures->>= Asks (read_config s) _ λ config _.
      Ensures->>= Asks (api.addr_validate info.sender) _ λ sender _.
        Ensures->>= Asks
          (guard (str_eq config.eligible_collateral sender) (generic_err "unauthorized")) _
          λ _ _. open_by_hook-Asks msg (host.from_binary msg.msg)

  pub execute-Asks :
      (msg : ExecuteMsg) → Ensures (λ p. Asks p ⊎ Keeps s p) (execute u api host s env info msg)
  unfolding execute
  execute-Asks (ExecuteMsg.receive msg) =
      Ensures-mono Asks (λ p. Asks p ⊎ Keeps s p) _ (receive_cw20-Asks msg) (λ p asks. inl asks)
  execute-Asks (ExecuteMsg.update_config owner) =
      Ensures-mono (Keeps s) (λ p. Asks p ⊎ Keeps s p) _ (update_config-Keeps owner)
        (λ p keeps. inr keeps)
  execute-Asks (ExecuteMsg.open_position vamm side quote_asset_amount leverage) =
      Ensures-mono Asks (λ p. Asks p ⊎ Keeps s p) _
        (open_position-Asks vamm info.sender side quote_asset_amount leverage) (λ p asks. inl asks)
  execute-Asks (ExecuteMsg.close_position vamm) =
      Ensures-mono Asks (λ p. Asks p ⊎ Keeps s p) _
        (close_position-Asks vamm info.sender swap_close_reply_id) (λ p asks. inl asks)
