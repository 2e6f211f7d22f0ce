-- ===== src/World/Closing.antt =====
-- A transaction that closes a position: close_position of handle.rs, the vAMM's swap, and `reply`.
use mrgnd_perpetuals.Base.{
  ℕ, zero, suc, ◌≡◌, ◌≢◌, refl, String, some, [], ◌∷◌, ok, err, panic, Ensures,
}
use mrgnd_perpetuals.Cosmwasm.{StdError, Response}
use mrgnd_perpetuals.Perp.Messages.{Payload}
use mrgnd_perpetuals.Perp.Engine.{ExecuteMsg}
use mrgnd_perpetuals.Engine.State.{Storage, Position}
use mrgnd_perpetuals.Engine.Handle.{Handled, swap_close_reply_id}
use mrgnd_perpetuals.Engine.Closing.{close_msg, close_position_inv, reply-swap_close_reply_id}
use mrgnd_perpetuals.Engine.Contract.{execute}
use mrgnd_perpetuals.World.State.{Chain, Block, World, env_of, info_of, imports_of}
use mrgnd_perpetuals.World.Dispatch.{
  dispatch, dispatch_after, transaction, run_message, run_reply, run_payload, after_engine,
}
use mrgnd_perpetuals.World.Settled.{dispatch_after-one}

-- A response that closes a position.
abbrev Closes : Storage × Response Payload → Type 0
Closes (s, r) =
    (v : String) × (position : Position) × (r.messages
      ≡ close_msg v position swap_close_reply_id ∷ [])

module _ {T : Type 0} (c : Chain T) (b : Block) where
  run_message-close :
      (w : World T) (v : String) (position : Position)
      → (why : StdError) × (run_message c b w (close_msg v position swap_close_reply_id) ≡ err why)
  unfolding run_message run_reply
  run_message-close w v position =
      let m = close_msg v position swap_close_reply_id in
      let (w', result) = run_payload c b w v m.msg in
      let (why, e) =
        reply-swap_close_reply_id c.uint128 c.api (imports_of c b w'.vamms) w'.engine
          (env_of b c.engine_address) result in
      (why, rw e refl)

  dispatch-close :
      (fuel : ℕ) (w : World T) (v : String) (position : Position) {w' : World T}
      → dispatch c b fuel w (close_msg v position swap_close_reply_id ∷ []) ≢ some (ok w')
  unfolding dispatch
  dispatch-close zero w v position h = cc
  dispatch-close (suc fuel) w v position h =
      let (why, e) = run_message-close w v position in
      cc (dispatch_after-one c b fuel w (close_msg v position swap_close_reply_id), e)

  closing-fails :
      (fuel : ℕ) (w : World T) (h : Handled) {w' : World T}
      → Ensures Closes h
      → dispatch_after c b fuel (after_engine c b w h) ≢ some (ok w')
  closing-fails fuel w (ok (s, r)) e h =
      let (v, position, sent) = e.holds (s, r) refl in
      dispatch-close fuel (record w { engine = s }) v position (rw sent at h)
  closing-fails fuel w (err why) e h = cc
  closing-fails fuel w panic e h = cc

  -- Whatever the world, the sender, the vAMM and the fuel, a transaction of close_position does
  -- not succeed.
  pub transaction-close_position :
      (fuel : ℕ) (w : World T) (sender vamm : String) {w' : World T}
      → transaction c b fuel w sender (ExecuteMsg.close_position vamm) ≢ some (ok w')
  unfolding transaction execute
  transaction-close_position fuel w sender vamm = closing-fails fuel w _ (record {
    holds = λ (s', r) e.
        let (v, t, position, _, _, sent) =
          close_position_inv c.api (imports_of c b w.vamms) w.engine (env_of b c.engine_address)
            (info_of sender) vamm sender swap_close_reply_id e in
        (v, position, sent);
  })
