-- ===== src/World/Dispatch.antt =====
-- A transaction: the call of a contract, then the messages that it answers by. The host runs a
-- message, hands its result to the engine's `reply` if the message asks for it, and runs the
-- messages of that reply before any other that waits. A failure anywhere undoes the transaction.
use mrgnd_perpetuals.Base.{
  ℕ, zero, suc, String, Option, none, some, List, [], ◌∷◌, ◌++◌, ok, err, panic,
}
use mrgnd_perpetuals.Cosmwasm.{StdResult, generic_err, SubMsg, ReplyOn, always, never, Response}
use mrgnd_perpetuals.Perp.Messages.{Payload, to_vamm, to_cw20}
use mrgnd_perpetuals.Perp.Engine.{ExecuteMsg}
use mrgnd_perpetuals.Perp.Vamm
use mrgnd_perpetuals.Vamm.State.{Storage as VammStorage}
use mrgnd_perpetuals.Vamm.Handle.{Handled as VammHandled}
use mrgnd_perpetuals.Vamm.Contract.{execute as execute_vamm}
use mrgnd_perpetuals.Engine.Handle.{Handled}
use mrgnd_perpetuals.Engine.Contract.{Event, ContractResult, success, failure, execute, reply}
use mrgnd_perpetuals.Engine.Events.{wasm_event}
use mrgnd_perpetuals.World.State.{Chain, Block, World, env_of, info_of, save_vamm, imports_of}

module _ {T : Type 0} (c : Chain T) (b : Block) where
  -- The events of a response. A response of a vAMM carries no messages.
  abbrev pub events_of : String → Response Payload → List Event
  events_of address r =
      (record { ty = "execute"; attributes = ("_contract_address", address) ∷ [] })
      ∷ wasm_event address r
      ∷ []

  -- The world after a message, and the result for the reply.
  abbrev pub after_vamm : World T → String → VammHandled → World T × ContractResult
  after_vamm w address (ok (s, r)) =
      (record w { vamms = save_vamm w.vamms address s }, success (events_of address r))
  after_vamm w address (err e) = (w, failure (c.error_text e))
  after_vamm w address panic = (w, failure c.panic_text)

  unfoldable pub run_vamm :
      World T → String → String → Option VammStorage → Vamm.ExecuteMsg → World T × ContractResult
  run_vamm w sender address none msg = (w, failure "no such contract")
  run_vamm w sender address (some s) msg =
      after_vamm w address (execute_vamm c.uint128 c.api s (env_of b address) (info_of sender) msg)

  abbrev pub after_token : World T → StdResult T → World T × ContractResult
  after_token w (ok t) = (record w { token = t }, success [])
  after_token w (err e) = (w, failure c.panic_text)
  after_token w panic = (w, failure c.panic_text)

  unfoldable pub run_payload : World T → String → Payload → World T × ContractResult
  unfolding run_vamm
  run_payload w address (to_vamm msg) = run_vamm w c.engine_address address (w.vamms address) msg
  run_payload w address (to_cw20 msg) = after_token w (c.execute_token w.token c.engine_address msg)

  -- The world after a call of the engine, and the messages that it answers by.
  abbrev pub after_engine : World T → Handled → StdResult (World T × List (SubMsg Payload))
  after_engine w (ok (s, r)) = ok (record w { engine = s }, r.messages)
  after_engine w (err e) = err e
  after_engine w panic = panic

  unfoldable pub run_reply :
      World T → ReplyOn → ℕ → ContractResult → StdResult (World T × List (SubMsg Payload))
  run_reply w always id result = after_engine w (
      reply c.uint128 c.api (imports_of c b w.vamms) w.engine (env_of b c.engine_address) id result)
  run_reply w never id (success events) = ok (w, [])
  run_reply w never id (failure e) = err (generic_err e)

  unfoldable pub run_message :
      World T → SubMsg Payload → StdResult (World T × List (SubMsg Payload))
  unfolding run_payload run_reply
  run_message w m =
      let (w', result) = run_payload w m.contract_addr m.msg in run_reply w' m.reply_on m.id result

  -- The messages that wait, by fuel; `none` if it ran out.
  unfoldable pub dispatch : ℕ → World T → List (SubMsg Payload) → Option (StdResult (World T))
  dispatch fuel w [] = some (ok w)
  dispatch zero w (m ∷ ms) = none
  dispatch (suc fuel) w (m ∷ ms) = elim (run_message w m) [
    | ok (w', new) ↦ dispatch fuel w' (new ++ ms)
    | err e ↦ some (err e)
    | panic ↦ some panic
  ]

  abbrev pub dispatch_after :
      ℕ → StdResult (World T × List (SubMsg Payload)) → Option (StdResult (World T))
  dispatch_after fuel (ok (w, ms)) = dispatch fuel w ms
  dispatch_after fuel (err e) = some (err e)
  dispatch_after fuel panic = some panic

  unfoldable pub transaction : ℕ → World T → String → ExecuteMsg → Option (StdResult (World T))
  unfolding dispatch
  transaction fuel w sender msg = dispatch_after fuel (
      after_engine w (
        execute c.uint128 c.api (imports_of c b w.vamms) w.engine (env_of b c.engine_address)
          (info_of sender) msg))
