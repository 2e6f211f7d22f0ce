-- ===== src/Engine/Closing.antt =====
-- close_position of handle.rs against reply of contract.rs.
use mrgnd_perpetuals.Base.{
  ℕ, String, ◌≡◌, refl, Option, none, some, [], ◌∷◌, ok, err, ◌>>=◌, >>=-eq-ok, unwrap_some,
}
use mrgnd_perpetuals.Cosmwasm.{StdError, Uint128, Api, MessageInfo, Env, SubMsg, always, Response}
use mrgnd_perpetuals.Perp.Messages.{Payload, to_vamm}
use mrgnd_perpetuals.Perp.Engine.{ExecuteMsg}
use mrgnd_perpetuals.Perp.Vamm
use mrgnd_perpetuals.Engine.State.{Imports, Storage, Position, position_key}
use mrgnd_perpetuals.Engine.Utils.{switch_direction}
use mrgnd_perpetuals.Engine.Handle.{Handled, close_position, swap_close_reply_id}
use mrgnd_perpetuals.Engine.Contract.{execute, reply, ContractResult, success, failure}

abbrev pub close_msg : String → Position → ℕ → SubMsg Payload
close_msg vamm position id = record {
  contract_addr = vamm;
  msg = to_vamm (Vamm.ExecuteMsg.swap_output (switch_direction position.direction) position.size);
  id = id;
  reply_on = always;
}

abbrev closing : Storage → String → ℕ → Option Position → Handled
closing s vamm id current = unwrap_some current >>= λ position. ok (
  s,
  record {
    messages = close_msg vamm position id ∷ [];
    attributes = ("action", "close_position") ∷ [];
  },
)

closing_inv :
    (s : Storage) (vamm : String) (id : ℕ) (current : Option Position)
    {p : Storage × Response Payload}
    → closing s vamm id current ≡ ok p
    → (position : Position) × (current ≡ some position)
      × (p.0 ≡ s)
      × (p.1.messages ≡ close_msg vamm position id ∷ [])
closing_inv s vamm id none h = cc
closing_inv s vamm id (some position) h = (position, refl, cc, cc)

-- What a successful close sends.
pub close_position_inv :
    (api : Api) (host : Imports) (s : Storage) (env : Env) (info : MessageInfo)
    (vamm trader : String) (id : ℕ) {s' : Storage} {r : Response Payload}
    → close_position api host s env info vamm trader id ≡ ok (s', r)
    → (v : String) × (t : String) × (position : Position) × (s.position (position_key host v t)
        ≡ some position)
      × (s' ≡ s)
      × (r.messages ≡ close_msg v position id ∷ [])
unfolding close_position
close_position_inv api host s env info vamm trader id {s'} {r} h =
    let (v, _, h₁) = >>=-eq-ok (api.addr_validate vamm) _ h in
    let (t, _, h₂) = >>=-eq-ok (api.addr_validate trader) _ h₁ in
    let (position, stored, kept, sent) =
      closing_inv s v id (s.position (position_key host v t)) {p = (s', r)} h₂ in
    (v, t, position, stored, kept, sent)

pub reply-swap_close_reply_id :
    (u : Uint128) (api : Api) (host : Imports) (s : Storage) (env : Env) (result : ContractResult)
    → (why : StdError) × (reply u api host s env swap_close_reply_id result ≡ err why)
unfolding reply
reply-swap_close_reply_id u api host s env (success events) = (_, refl)
reply-swap_close_reply_id u api host s env (failure e) = (_, refl)

-- A successful close_position leaves the engine's storage as it was and sends one message, that
-- asks for a reply always; whatever the result of the message and the storage at that time, the
-- engine's reply to it is an error.
pub close_position-reply :
    (u : Uint128) (api : Api) (host : Imports) (s : Storage) (env : Env) (info : MessageInfo)
    (vamm : String) {s' : Storage} {r : Response Payload} (s'' : Storage) (result : ContractResult)
    → execute u api host s env info (ExecuteMsg.close_position vamm) ≡ ok (s', r)
    → (msg : SubMsg Payload) × (r.messages ≡ msg ∷ [])
      × (s' ≡ s)
      × (msg.reply_on ≡ always)
      × ((why : StdError) × (reply u api host s'' env msg.id result ≡ err why))
unfolding execute
close_position-reply u api host s env info vamm {s'} {r} s'' result h =
    let (v, t, position, _, kept, sent) =
      close_position_inv api host s env info vamm info.sender swap_close_reply_id h in
    (
      close_msg v position swap_close_reply_id,
      sent,
      kept,
      refl,
      reply-swap_close_reply_id u api host s'' env result,
    )
