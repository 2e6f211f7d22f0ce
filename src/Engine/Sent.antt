-- ===== src/Engine/Sent.antt =====
-- What the replies of reply.rs send, and what they leave of the pending swap.
use mrgnd_perpetuals.Base.{
  ℕ, String, Option-cases, ◌≡◌, ◌⊎◌, refl, none, [], ◌∷◌, ok, ◌>>=◌, ◌==◌, Bool-cases, inl, inr,
  Ensures, Ensures-ok, Ensures->>=, unwrap, if◌then◌else◌, arith,
}
use mrgnd_perpetuals.Cosmwasm.{
  Uint128, Env, SubMsg, StdResult, always, never, Response, default_response,
}
use mrgnd_perpetuals.Perp.Messages.{Payload}
use mrgnd_perpetuals.Perp.Engine.{Side}
use mrgnd_perpetuals.Engine.State.{
  Imports, Storage, Position, Swap, read_config, read_tmp_swap, store_position, store_tmp_swap,
  remove_tmp_swap,
}
use mrgnd_perpetuals.Engine.Utils.{side_to_direction}
use mrgnd_perpetuals.Engine.Handle.{
  get_position, clear_position, internal_increase_position, swap_input, swap_increase_reply_id,
}
use mrgnd_perpetuals.Engine.Reply.{
  increase_position_reply, decrease_position_reply, reverse_position_reply, some_swap,
  execute_transfer, execute_transfer_from, remaining,
}

-- Messages with no swap pending, of which none asks for a reply.
abbrev pub Ends : Storage × Response Payload → Type 0
Ends (s, r) =
    (s.tmp_swap ≡ none)
    × ((r.messages ≡ []) ⊎ ((m : SubMsg Payload) × (r.messages ≡ m ∷ []) × (m.reply_on ≡ never)))

-- One message that asks for a reply, by the id of an increase.
abbrev pub GoesOn : Storage × Response Payload → Type 0
GoesOn (s, r) =
    (m : SubMsg Payload) × (r.messages ≡ m ∷ [])
    × (m.reply_on ≡ always)
    × (m.id ≡ swap_increase_reply_id)

transfer_from-never :
    (s : Storage) (owner receiver : String) (amount : ℕ) {msg : SubMsg Payload}
    → ◌≡◌ {A = StdResult (SubMsg Payload)}
        (unwrap (execute_transfer_from s owner receiver amount))
        (ok msg)
    → msg.reply_on ≡ never
unfolding execute_transfer_from read_config
transfer_from-never s owner receiver amount h = elim (Option-cases s.config) [
  | inl e ↦ absurd (ground arith)
  | inr (config, e) ↦ ground arith
]

transfer-never :
    (s : Storage) (receiver : String) (amount : ℕ) {msg : SubMsg Payload}
    → ◌≡◌ {A = StdResult (SubMsg Payload)} (unwrap (execute_transfer s receiver amount)) (ok msg)
    → msg.reply_on ≡ never
unfolding execute_transfer read_config
transfer-never s receiver amount h = elim (Option-cases s.config) [
  | inl e ↦ absurd (ground arith)
  | inr (config, e) ↦ ground arith
]

increases-id :
    (vamm : String) (side : Side) (open_notional : ℕ) {msg : SubMsg Payload}
    → internal_increase_position vamm side open_notional ≡ ok msg
    → (msg.reply_on ≡ always) × (msg.id ≡ swap_increase_reply_id)
unfolding internal_increase_position swap_input
increases-id vamm side open_notional h = ground arith

-- What Ends and GoesOn come from, in the reply of a reversal.
abbrev Settled : Storage × SubMsg Payload → Type 0
Settled (s, msg) =
    ((s.tmp_swap ≡ none) × (msg.reply_on ≡ never))
    ⊎ ((msg.reply_on ≡ always) × (msg.id ≡ swap_increase_reply_id))

closed :
    (host : Imports) (s : Storage) (position : Position) (msg : SubMsg Payload) {s' : Storage}
    → Settled (s, msg)
    → store_position host s position ≡ ok s'
    → Ends (s', record { messages = msg ∷ []; attributes = [] })
      ⊎ GoesOn (s', record { messages = msg ∷ []; attributes = [] })
unfolding store_position
closed host s position msg (inl (gone, silent)) kept = inl (ground arith, inr (msg, refl, silent))
closed host s position msg (inr (asks, increase)) kept = inr (msg, refl, asks, increase)

module _ (u : Uint128) (host : Imports) (s : Storage) (env : Env) (input output : ℕ) where
  pub increase-Ends : Ensures Ends (increase_position_reply u host s env input output)
  unfolding increase_position_reply remove_tmp_swap
  increase-Ends = Ensures->>= Ends (read_config s) _ λ config _.
      Ensures->>= Ends (read_tmp_swap s) _ λ tmp_swap _.
        Ensures->>= Ends (some_swap tmp_swap) _ λ swap _.
          Ensures->>= Ends (get_position host env s swap.vamm swap.trader swap.side) _ λ position _.
            Ensures->>= Ends (u.checked_add position.size output) _ λ size _.
              Ensures->>= Ends (u.checked_add position.notional swap.open_notional) _ λ notional _.
                Ensures->>= Ends (u.checked_mul notional config.decimals) _ λ scaled _.
                  Ensures->>= Ends (u.checked_div scaled swap.leverage) _ λ margin _.
                    Ensures->>= Ends
                      (store_position host s (record position {
                        size = size;
                        notional = notional;
                        direction = side_to_direction swap.side;
                        margin = margin;
                      }))
                      _
                      λ s' _.
                        Ensures->>= Ends
                          (unwrap (execute_transfer_from s' swap.trader env.contract margin)) _
                          λ msg sent.
                            Ensures-ok Ends
                              (remove_tmp_swap s', record { messages = msg ∷ []; attributes = [] })
                              (
                                refl,
                                inr (
                                  msg,
                                  refl,
                                  transfer_from-never s' swap.trader env.contract margin sent,
                                ),
                              )

  pub decrease-Ends :
      Ensures
        (λ p. Ends p × (p.1.messages ≡ []))
        (decrease_position_reply u host s env input output)
  unfolding decrease_position_reply remove_tmp_swap
  decrease-Ends =
      let P : Storage × Response Payload → Type 0 = λ p. Ends p × (p.1.messages ≡ []) in
      Ensures->>= P (read_tmp_swap s) _ λ tmp_swap _. Ensures->>= P (some_swap tmp_swap) _ λ swap _.
        Ensures->>= P (get_position host env s swap.vamm swap.trader swap.side) _ λ position _.
          Ensures->>= P (u.checked_sub position.size output) _ λ size _.
            Ensures->>= P (u.checked_sub position.notional swap.open_notional) _ λ notional _.
              Ensures->>= P
                (store_position host s (record position { size = size; notional = notional })) _
                λ s' _. Ensures-ok P (remove_tmp_swap s', default_response) ((refl, inl refl), refl)

  -- The storage and the message once the closed position is settled.
  abbrev settling : Swap → ℕ → ℕ → ℕ → StdResult (Storage × SubMsg Payload)
  settling swap margin_amount open_notional units =
      if units == 0
      then (do
        msg ← unwrap (execute_transfer s swap.trader margin_amount)
        ok (remove_tmp_swap s, msg))
      else (do
        s' ← store_tmp_swap s (record swap { open_notional = open_notional })
        msg ← internal_increase_position swap.vamm swap.side open_notional
        ok (s', msg))

  settling-Settled :
      (swap : Swap) (margin_amount open_notional units : ℕ)
      → Ensures Settled (settling swap margin_amount open_notional units)
  unfolding remove_tmp_swap
  settling-Settled swap margin_amount open_notional units = elim (Bool-cases (units == 0)) [
    | inl e ↦ rw e (
        Ensures->>= Settled (unwrap (execute_transfer s swap.trader margin_amount)) _ λ msg sent.
          Ensures-ok Settled (remove_tmp_swap s, msg)
            (inl (refl, transfer-never s swap.trader margin_amount sent)))
    | inr e ↦ rw e (
        Ensures->>= Settled (store_tmp_swap s (record swap { open_notional = open_notional })) _
          λ s' _.
            Ensures->>= Settled (internal_increase_position swap.vamm swap.side open_notional) _
              λ msg sent.
                Ensures-ok Settled (s', msg)
                  (inr (increases-id swap.vamm swap.side open_notional sent)))
  ]

  pub reverse-Settles :
      Ensures (λ p. Ends p ⊎ GoesOn p) (reverse_position_reply u host s env input output)
  unfolding reverse_position_reply store_position
  reverse-Settles =
      let P : Storage × Response Payload → Type 0 = λ p. Ends p ⊎ GoesOn p in
      Ensures->>= P (read_tmp_swap s) _ λ tmp_swap _. Ensures->>= P (some_swap tmp_swap) _ λ swap _.
        Ensures->>= P (get_position host env s swap.vamm swap.trader swap.side) _ λ position _.
          Ensures->>= P (clear_position env position) _ λ cleared _.
            Ensures->>= P (remaining u swap.open_notional output) _ λ open_notional _.
              Ensures->>= P (u.checked_div open_notional swap.leverage) _ λ units _.
                Ensures->>= P (settling swap position.margin open_notional units) _ λ (s', msg) e.
                  Ensures->>= P (store_position host s' cleared) _ λ s'' kept.
                    Ensures-ok P (s'', record { messages = msg ∷ []; attributes = [] })
                      (closed host s' cleared msg
                        ((settling-Settled swap position.margin open_notional units).holds (s', msg)
                          e)
                        kept)
