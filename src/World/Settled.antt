-- ===== src/World/Settled.antt =====
-- How a transaction of the engine ends.
use mathlib.Core.List.{append-nil}
use mrgnd_perpetuals.Base.{
  ℕ, zero, suc, ◌≤◌, ◌≡◌, ◌⊎◌, inl, inr, refl, ap, ◌∙◌, String, Option, none, some, List, [], ◌∷◌,
  ◌++◌, ok, err, panic, Ensures, Ensures-ok, Ensures-err, Ensures-panic, Ensures-mono, arith,
}
use mrgnd_perpetuals.Cosmwasm.{StdResult, SubMsg, always, never, Response}
use mrgnd_perpetuals.Perp.Messages.{Payload, to_vamm, to_cw20}
use mrgnd_perpetuals.Perp.Engine.{ExecuteMsg}
use mrgnd_perpetuals.Perp.Vamm
use mrgnd_perpetuals.Vamm.State.{Storage as VammStorage}
use mrgnd_perpetuals.Vamm.Handle.{Handled as VammHandled}
use mrgnd_perpetuals.Engine.State.{Storage}
use mrgnd_perpetuals.Engine.Handle.{Handled}
use mrgnd_perpetuals.Engine.Contract.{ContractResult, success, failure}
use mrgnd_perpetuals.Engine.Asked.{Asks, Keeps, execute-Asks}
use mrgnd_perpetuals.World.State.{Chain, Block, World, env_of, info_of, imports_of}
use mrgnd_perpetuals.World.Dispatch.{
  dispatch, dispatch_after, transaction, run_message, run_reply, run_payload, run_vamm,
  after_engine, after_token, after_vamm,
}
use mrgnd_perpetuals.World.Pending.{Waits, rounds_of, reply-Waits}

module _ {T : Type 0} (c : Chain T) (b : Block) where
  -- What waits in a world.
  abbrev Waiting : ℕ → World T × List (SubMsg Payload) → Type 0
  Waiting n (w, ms) = Waits n (w.engine, record { messages = ms; attributes = [] })

  -- No swap is pending.
  abbrev pub IsIdle : World T → Type 0
  IsIdle w = w.engine.tmp_swap ≡ none

  -- The fuel was enough, and no swap is pending if the transaction succeeded.
  abbrev pub Ended : Option (StdResult (World T)) → Type 0
  Ended answer = (o : StdResult (World T)) × (answer ≡ some o) × Ensures IsIdle o

  after_engine-Waiting :
      (n : ℕ) (w : World T) (h : Handled)
      → Ensures (Waits n) h
      → Ensures (Waiting n) (after_engine c b w h)
  after_engine-Waiting n w (ok (s, r)) e = Ensures-ok (Waiting n) _ (e.holds (s, r) refl)
  after_engine-Waiting n w (err why) e = Ensures-err (Waiting n) why
  after_engine-Waiting n w panic e = Ensures-panic (Waiting n)

  run_reply-always :
      (n : ℕ) (w : World T) (id : ℕ) (result : ContractResult)
      → rounds_of id ≤ suc n
      → Ensures (Waiting n) (run_reply c b w always id result)
  unfolding run_reply
  run_reply-always n w id result h = after_engine-Waiting n w _ (
      reply-Waits c.uint128 c.api (imports_of c b w.vamms) w.engine (env_of b c.engine_address) id n
        result h)

  run_reply-never :
      (n : ℕ) (w : World T) (id : ℕ) (result : ContractResult)
      → IsIdle w
      → Ensures (Waiting n) (run_reply c b w never id result)
  unfolding run_reply
  run_reply-never n w id (success events) idle = Ensures-ok (Waiting n) _ (inl (idle, inl refl))
  run_reply-never n w id (failure e) idle = Ensures-err (Waiting n) _

  -- A message leaves the engine alone until its reply.
  after_vamm-engine :
      (w : World T) (address : String) (h : VammHandled)
      → (after_vamm c b w address h).0.engine ≡ w.engine
  after_vamm-engine w address (ok (s, r)) = refl
  after_vamm-engine w address (err e) = refl
  after_vamm-engine w address panic = refl

  after_token-engine : (w : World T) (m : StdResult T) → (after_token c b w m).0.engine ≡ w.engine
  after_token-engine w (ok t) = refl
  after_token-engine w (err e) = refl
  after_token-engine w panic = refl

  pub run_vamm-engine :
      (w : World T) (sender address : String) (s : Option VammStorage) (msg : Vamm.ExecuteMsg)
      → (run_vamm c b w sender address s msg).0.engine ≡ w.engine
  unfolding run_vamm
  run_vamm-engine w sender address none msg = refl
  run_vamm-engine w sender address (some s) msg = after_vamm-engine w address _

  pub run_payload-engine :
      (w : World T) (address : String) (msg : Payload)
      → (run_payload c b w address msg).0.engine ≡ w.engine
  unfolding run_payload
  run_payload-engine w address (to_vamm msg) =
      run_vamm-engine w c.engine_address address (w.vamms address) msg
  run_payload-engine w address (to_cw20 msg) = after_token-engine w _

  run_message-always :
      (n : ℕ) (w : World T) (m : SubMsg Payload)
      → m.reply_on ≡ always
      → rounds_of m.id ≤ suc n
      → Ensures (Waiting n) (run_message c b w m)
  unfolding run_message
  run_message-always n w m asks h =
      let (w', result) = run_payload c b w m.contract_addr m.msg in
      rw asks (run_reply-always n w' m.id result h)

  run_message-never :
      (n : ℕ) (w : World T) (m : SubMsg Payload)
      → m.reply_on ≡ never
      → IsIdle w
      → Ensures (Waiting n) (run_message c b w m)
  unfolding run_message
  run_message-never n w m silent idle =
      let (w', result) = run_payload c b w m.contract_addr m.msg in
      rw silent (
        run_reply-never n w' m.id result
          (ap (λ (s : Storage). s.tmp_swap) (run_payload-engine w m.contract_addr m.msg) ∙ idle))

  -- A single message that waits.
  pub dispatch_after-one :
      (fuel : ℕ) (w : World T) (m : SubMsg Payload)
      → dispatch c b (suc fuel) w (m ∷ []) ≡ dispatch_after c b fuel (run_message c b w m)
  unfolding dispatch
  dispatch_after-one fuel w m =
      elim (run_message c b w m)
        as (λ o.
          ◌≡◌ {A = Option (StdResult (World T))}
            (elim o [
              | ok (w', new) ↦ dispatch c b fuel w' (new ++ [])
              | err e ↦ some (err e)
              | panic ↦ some panic
            ])
            (dispatch_after c b fuel o)) [
              | ok (w', new) ↦ ap (dispatch c b fuel w') (append-nil new)
              | err e ↦ refl
              | panic ↦ refl
            ]

  dispatch_after-Ended :
      (fuel : ℕ) (o : StdResult (World T × List (SubMsg Payload)))
      → ((w : World T) (ms : List (SubMsg Payload))
          → Waiting fuel (w, ms)
          → Ended (dispatch c b fuel w ms))
      → Ensures (Waiting fuel) o
      → Ended (dispatch_after c b fuel o)
  dispatch_after-Ended fuel (ok (w, ms)) ends h = ends w ms (h.holds (w, ms) refl)
  dispatch_after-Ended fuel (err e) ends h = (err e, refl, Ensures-err IsIdle e)
  dispatch_after-Ended fuel panic ends h = (panic, refl, Ensures-panic IsIdle)

  -- The rounds that are counted are enough.
  dispatch-Ended :
      (fuel : ℕ) (w : World T) (ms : List (SubMsg Payload))
      → Waiting fuel (w, ms)
      → Ended (dispatch c b fuel w ms)
  unfolding dispatch
  dispatch-Ended fuel w [] (inl (idle, e)) = (ok w, refl, Ensures-ok IsIdle w idle)
  dispatch-Ended fuel w [] (inr (m, e, _, _)) = absurd (cc)
  dispatch-Ended zero w (m ∷ ms) (inl (idle, inl e)) = absurd (cc)
  dispatch-Ended zero w (m ∷ ms) (inl (idle, inr (m', e, silent, pos))) = absurd (omega arith)
  dispatch-Ended zero w (m ∷ ms) (inr (m', e, asks, room)) = absurd (ground arith)
  dispatch-Ended (suc fuel) w (m ∷ ms) (inl (idle, inl e)) = absurd (cc)
  dispatch-Ended (suc fuel) w (m ∷ ms) (inl (idle, inr (m', e, silent, pos))) =
      rw (e, dispatch_after-one fuel w m')
        (dispatch_after-Ended fuel (run_message c b w m') (λ w' ms'. dispatch-Ended fuel w' ms')
          (run_message-never fuel w m' silent idle))
  dispatch-Ended (suc fuel) w (m ∷ ms) (inr (m', e, asks, room)) =
      rw (e, dispatch_after-one fuel w m')
        (dispatch_after-Ended fuel (run_message c b w m') (λ w' ms'. dispatch-Ended fuel w' ms')
          (run_message-always fuel w m' asks room))

  rounds_of-le : (id : ℕ) → rounds_of id ≤ 3
  rounds_of-le id = ground arith

  starts :
      (w : World T)
      → IsIdle w
      → (p : Storage × Response Payload) → Asks p ⊎ Keeps w.engine p
      → Waits 3 p
  starts w idle p (inl (m, sent, asks)) = inr (m, sent, asks, rounds_of-le m.id)
  starts w idle p (inr (silent, kept)) = inl (kept ∙ idle, inl silent)

  executed-Waiting :
      (w : World T) (h : Handled)
      → IsIdle w
      → Ensures (λ p. Asks p ⊎ Keeps w.engine p) h
      → Ensures (Waits 3) h
  executed-Waiting w h idle e =
      Ensures-mono (λ p. Asks p ⊎ Keeps w.engine p) (Waits 3) h e (starts w idle)

  -- In a world where no swap is pending, a transaction of the engine with fuel for three
  -- messages never runs out of it, whatever the message and the vAMMs' and the token's answers,
  -- and if it succeeds then no swap is pending afterwards.
  pub transaction-Ended :
      (w : World T) (sender : String) (msg : ExecuteMsg)
      → IsIdle w
      → Ended (transaction c b 3 w sender msg)
  unfolding transaction
  transaction-Ended w sender msg idle =
      dispatch_after-Ended 3 _ (λ w' ms. dispatch-Ended 3 w' ms)
        (after_engine-Waiting 3 w _ (
          executed-Waiting w _ idle (
            execute-Asks c.uint128 c.api (imports_of c b w.vamms) w.engine
              (env_of b c.engine_address) (info_of sender) msg)))
