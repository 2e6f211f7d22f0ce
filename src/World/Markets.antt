-- ===== src/World/Markets.antt =====
-- A transaction of the engine and the vAMMs: what it keeps of them.
use mrgnd_perpetuals.Base.{
  ℕ, zero, suc, ◌≡◌, refl, ap, subst, ◌∙◌, sym, String, str_eq, eq_iff, Bool-cases, inl, inr,
  Option, none, some, List, [], ◌∷◌, ◌++◌, ok, err, panic, ok-injective, Ensures, Ensures-ok,
  Ensures-err, Ensures-panic,
}
use mrgnd_perpetuals.Cosmwasm.{StdResult, IsUint128, SubMsg, ReplyOn, always, never}
use mrgnd_perpetuals.Perp.Messages.{Payload, to_vamm, to_cw20}
use mrgnd_perpetuals.Perp.Engine.{ExecuteMsg}
use mrgnd_perpetuals.Perp.Vamm
use mrgnd_perpetuals.Vamm.State.{Storage as VammStorage}
use mrgnd_perpetuals.Vamm.Handle.{Handled as VammHandled}
use mrgnd_perpetuals.Vamm.Invariant.{HasInvariant, execute-HasInvariant}
use mrgnd_perpetuals.Engine.Handle.{Handled}
use mrgnd_perpetuals.Engine.Contract.{ContractResult, success, failure}
use mrgnd_perpetuals.World.State.{Chain, Block, World, env_of, info_of, save_vamm}
use mrgnd_perpetuals.World.Dispatch.{
  dispatch, dispatch_after, transaction, run_message, run_reply, run_payload, run_vamm,
  after_engine, after_vamm, after_token,
}

-- At the address is a market of nine decimals whose invariant is at least `k`.
abbrev pub IsMarket : {T : Type 0} → String → ℕ → World T → Type 0
IsMarket a k w = (s : VammStorage) × (w.vamms a ≡ some s) × HasInvariant s k

some-injective : {A : Type 0} {x y : A} → some x ≡ some y → x ≡ y
some-injective h = cc

module _ {T : Type 0} (c : Chain T) (b : Block) (laws : IsUint128 c.uint128) (a : String)
    (k : ℕ) where
  abbrev Kept : World T × List (SubMsg Payload) → Type 0
  Kept (w, ms) = IsMarket a k w

  saved-IsMarket :
      (w : World T) (address : String) (s : VammStorage)
      → IsMarket a k w
      → (address ≡ a → HasInvariant s k)
      → IsMarket a k (record w { vamms = save_vamm w.vamms address s })
  saved-IsMarket w address s (s₀, stored, v) new = elim (Bool-cases (str_eq a address)) [
    | inl same ↦ (s, rw same, new (sym ((eq_iff a address).0 same)))
    | inr other ↦ (s₀, rw other stored, v)
  ]

  after_vamm-IsMarket :
      (w : World T) (address : String) (h : VammHandled)
      → IsMarket a k w
      → Ensures (λ p. address ≡ a → HasInvariant p.0 k) h
      → IsMarket a k (after_vamm c b w address h).0
  after_vamm-IsMarket w address (ok (s, r)) v e = saved-IsMarket w address s v (e.holds (s, r) refl)
  after_vamm-IsMarket w address (err why) v e = v
  after_vamm-IsMarket w address panic v e = v

  -- The market at the address is the one that is called.
  called-HasInvariant :
      (w : World T) (address : String) (s : VammStorage)
      → IsMarket a k w
      → w.vamms address ≡ some s
      → address ≡ a
      → HasInvariant s k
  called-HasInvariant w address s (s₀, stored, v) found same =
      let e : s₀ ≡ s = some-injective (sym stored ∙ ap w.vamms (sym same) ∙ found) in
      subst (λ t. HasInvariant t k) e v

  run_found-IsMarket :
      (w : World T) (sender address : String) (found : Option VammStorage) (msg : Vamm.ExecuteMsg)
      → w.vamms address ≡ found
      → IsMarket a k w
      → IsMarket a k (run_vamm c b w sender address found msg).0
  unfolding run_vamm
  run_found-IsMarket w sender address none msg e v = v
  run_found-IsMarket w sender address (some s) msg e v = after_vamm-IsMarket w address _ v (record {
    holds = λ (s', r) h same.
        execute-HasInvariant c.uint128 laws c.api s (env_of b address) (info_of sender)
          (called-HasInvariant w address s v e same) msg h;
  })

  pub run_vamm-IsMarket :
      (w : World T) (sender address : String) (msg : Vamm.ExecuteMsg)
      → IsMarket a k w
      → IsMarket a k (run_vamm c b w sender address (w.vamms address) msg).0
  run_vamm-IsMarket w sender address msg v =
      run_found-IsMarket w sender address (w.vamms address) msg refl v

  after_token-IsMarket :
      (w : World T) (m : StdResult T) → IsMarket a k w → IsMarket a k (after_token c b w m).0
  after_token-IsMarket w (ok t) v = v
  after_token-IsMarket w (err e) v = v
  after_token-IsMarket w panic v = v

  run_payload-IsMarket :
      (w : World T) (address : String) (msg : Payload)
      → IsMarket a k w
      → IsMarket a k (run_payload c b w address msg).0
  unfolding run_payload
  run_payload-IsMarket w address (to_vamm msg) v =
      run_vamm-IsMarket w c.engine_address address msg v
  run_payload-IsMarket w address (to_cw20 msg) v = after_token-IsMarket w _ v

  after_engine-Kept :
      (w : World T) (h : Handled) → IsMarket a k w → Ensures Kept (after_engine c b w h)
  after_engine-Kept w (ok (s, r)) v = Ensures-ok Kept _ v
  after_engine-Kept w (err e) v = Ensures-err Kept e
  after_engine-Kept w panic v = Ensures-panic Kept

  run_reply-Kept :
      (w : World T) (on : ReplyOn) (id : ℕ) (result : ContractResult)
      → IsMarket a k w
      → Ensures Kept (run_reply c b w on id result)
  unfolding run_reply
  run_reply-Kept w always id result v = after_engine-Kept w _ v
  run_reply-Kept w never id (success events) v = Ensures-ok Kept _ v
  run_reply-Kept w never id (failure e) v = Ensures-err Kept _

  run_message-Kept :
      (w : World T) (m : SubMsg Payload) → IsMarket a k w → Ensures Kept (run_message c b w m)
  unfolding run_message
  run_message-Kept w m v =
      let (w', result) = run_payload c b w m.contract_addr m.msg in
      run_reply-Kept w' m.reply_on m.id result (run_payload-IsMarket w m.contract_addr m.msg v)

  next-IsMarket :
      (fuel : ℕ) (ms : List (SubMsg Payload)) (o : StdResult (World T × List (SubMsg Payload)))
      (w' : World T)
      → ((w : World T) (new : List (SubMsg Payload))
          → IsMarket a k w
          → dispatch c b fuel w new ≡ some (ok w')
          → IsMarket a k w')
      → Ensures Kept o
      → ◌≡◌ {A = Option (StdResult (World T))}
          (elim o [
            | ok (w₁, new) ↦ dispatch c b fuel w₁ (new ++ ms)
            | err e ↦ some (err e)
            | panic ↦ some panic
          ])
          (some (ok w'))
      → IsMarket a k w'
  next-IsMarket fuel ms (ok (w₁, new)) w' ends e h = ends w₁ (new ++ ms) (e.holds (w₁, new) refl) h
  next-IsMarket fuel ms (err why) w' ends e h = absurd (cc)
  next-IsMarket fuel ms panic w' ends e h = absurd (cc)

  -- Through the messages that wait, whatever the fuel.
  dispatch-IsMarket :
      (fuel : ℕ) (w : World T) (ms : List (SubMsg Payload)) (w' : World T)
      → IsMarket a k w
      → dispatch c b fuel w ms ≡ some (ok w')
      → IsMarket a k w'
  unfolding dispatch
  dispatch-IsMarket fuel w [] w' v h = subst (IsMarket a k) (ok-injective (some-injective h)) v
  dispatch-IsMarket zero w (m ∷ ms) w' v h = absurd (cc)
  dispatch-IsMarket (suc fuel) w (m ∷ ms) w' v h =
      next-IsMarket fuel ms (run_message c b w m) w' (λ w₁ new. dispatch-IsMarket fuel w₁ new w')
        (run_message-Kept w m v) h

  dispatch_after-IsMarket :
      (fuel : ℕ) (o : StdResult (World T × List (SubMsg Payload))) (w' : World T)
      → Ensures Kept o
      → dispatch_after c b fuel o ≡ some (ok w')
      → IsMarket a k w'
  dispatch_after-IsMarket fuel (ok (w, ms)) w' e h =
      dispatch-IsMarket fuel w ms w' (e.holds (w, ms) refl) h
  dispatch_after-IsMarket fuel (err why) w' e h = absurd (cc)
  dispatch_after-IsMarket fuel panic w' e h = absurd (cc)

  pub transaction-IsMarket :
      (fuel : ℕ) (w : World T) (sender : String) (msg : ExecuteMsg) (w' : World T)
      → IsMarket a k w
      → transaction c b fuel w sender msg ≡ some (ok w')
      → IsMarket a k w'
  unfolding transaction
  transaction-IsMarket fuel w sender msg w' v h =
      dispatch_after-IsMarket fuel _ w' (after_engine-Kept w _ v) h
