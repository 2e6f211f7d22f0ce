-- ===== src/Engine/Tests.antt =====
-- The theorems about the margin engine at a concrete storage.
use mrgnd_perpetuals.Base.{
  ℕ, ◌+◌, ◌-◌, ◌/◌, ◌≡◌, ◌⊎◌, refl, none, some, List, [], ◌∷◌, ok, err, arith, ◌==◌, if◌then◌else◌,
}
use mrgnd_perpetuals.Cosmwasm.{
  StdError, SubMsg, always, Response, default_response, documented, documented-IsUint128,
}
use mrgnd_perpetuals.Perp.Messages.{Payload}
use mrgnd_perpetuals.Perp.Engine.{buy, ExecuteMsg}
use mrgnd_perpetuals.Engine.State.{Swap, any_is}
use mrgnd_perpetuals.Engine.Utils.{require_vamm, side_to_direction}
use mrgnd_perpetuals.Engine.Handle.{
  open_position, close_position, is_increase, internal_increase_position, swap_close_reply_id,
}
use mrgnd_perpetuals.Engine.Reply.{
  increase_position_reply, decrease_position_reply, reverse_position_reply,
}
use mrgnd_perpetuals.Engine.Query.{query_trader_balance_with_funding_payment}
use mrgnd_perpetuals.Engine.Balance.{
  total_margin, query_trader_balance_with_funding_payment-total_margin,
}
use mrgnd_perpetuals.Engine.Contract.{
  Event, success, parse_swap, find_event, find_attribute, reply, execute,
}
use mrgnd_perpetuals.Engine.Closing.{close_msg, close_position-reply}
use mrgnd_perpetuals.Engine.Positions.{
  stored, margin_of, collateral_msg, emptied, distance, returned_msg, reopening_msg,
}
use mrgnd_perpetuals.Engine.Replies.{
  increase_position_reply_lem, decrease_position_reply_lem, reverse_position_reply_lem,
}
use mrgnd_perpetuals.Engine.Pending.{reply-pending}
use mrgnd_perpetuals.Engine.Opening.{Opened, open_position-Opened}
use mrgnd_perpetuals.Engine.Fixture.{
  host_api, host, block, trader_info, engine_config, alice_position, alice_swap, idle,
  pending_storage, order_msg, open_response,
}

increase_position_reply_lem_example :
    increase_position_reply documented host pending_storage block 600 30
    ≡ ok (
      stored host pending_storage
          (record alice_position {
            size = 37 + 30;
            notional = 600 + 600;
            margin = margin_of engine_config alice_swap 1200;
          })
          none,
      record {
        messages =
            collateral_msg engine_config "alice" "engine" (margin_of engine_config alice_swap 1200)
            ∷ [];
        attributes = [];
      },
    )
unfolding side_to_direction
increase_position_reply_lem_example =
    increase_position_reply_lem documented documented-IsUint128 host pending_storage block 600 30
      {config = engine_config} {swap = alice_swap} refl refl (omega arith) (omega arith)
      (omega arith) (omega arith)

decrease_position_reply_lem_example :
    decrease_position_reply documented host pending_storage block 600 30
    ≡ ok (
      stored host pending_storage
          (record alice_position { size = 37 - 30; notional = 600 - 600 })
          none,
      default_response,
    )
decrease_position_reply_lem_example =
    decrease_position_reply_lem documented documented-IsUint128 host pending_storage block 600 30
      {config = engine_config} {swap = alice_swap} refl refl (omega arith) (omega arith)

reverse_position_reply_lem_example :
    reverse_position_reply documented host pending_storage block 37 590 ≡ (
      if distance 600 590 / 10000000000 == 0
      then ok (
        stored host pending_storage (emptied block alice_position) none,
        record { messages = returned_msg engine_config "alice" 60 ∷ []; attributes = [] },
      )
      else ok (
        stored host pending_storage
            (emptied block alice_position)
            (some (record alice_swap { open_notional = distance 600 590 })),
        record { messages = reopening_msg alice_swap (distance 600 590) ∷ []; attributes = [] },
      ))
reverse_position_reply_lem_example =
    reverse_position_reply_lem documented documented-IsUint128 host pending_storage block 37 590
      {config = engine_config} {swap = alice_swap} refl refl (omega arith)

abbrev close_response : Response Payload
close_response = record {
  messages = close_msg "vamm" alice_position swap_close_reply_id ∷ [];
  attributes = ("action", "close_position") ∷ [];
}

closed :
    execute documented host_api host idle block trader_info (ExecuteMsg.close_position "vamm")
    ≡ ok (idle, close_response)
unfolding execute close_position
closed = refl

close_position-reply_example :
    (msg : SubMsg Payload) × (close_response.messages ≡ msg ∷ [])
    × (idle ≡ idle)
    × (msg.reply_on ≡ always)
    × ((why : StdError) × (reply documented host_api host idle block msg.id (success []) ≡ err why))
close_position-reply_example =
    close_position-reply documented host_api host idle block trader_info "vamm" idle (success [])
      closed

opened :
    open_position documented host_api host idle block trader_info "vamm" "alice" buy 60 10000000000
    ≡ ok (pending_storage, open_response)
unfolding open_position require_vamm is_increase internal_increase_position any_is
opened = refl

open_position-Opened_example :
    Opened host_api host idle block "vamm" "alice" buy 60 10000000000 pending_storage
      (order_msg ∷ [])
open_position-Opened_example =
    open_position-Opened host_api host idle block trader_info "vamm" "alice" buy 60 10000000000
      documented documented-IsUint128 opened

-- The vAMM's answer to a swap of 12 for 60, as the engine reads it.
abbrev swap_events : List Event
swap_events = (record { ty = "wasm"; attributes = ("input", "60") ∷ ("output", "12") ∷ [] }) ∷ []

replied :
    reply documented host_api host pending_storage block 2 (success swap_events)
    ≡ ok (
      stored host pending_storage (record alice_position { size = 37 - 12; notional = 0 }) none,
      default_response,
    )
unfolding reply parse_swap decrease_position_reply find_event find_attribute
replied = refl

reply-pending_example :
    (events : List Event) × (swap : Swap) × (success swap_events ≡ success events)
    × (some alice_swap ≡ some swap)
    × ((◌≡◌ {A = ℕ} 2 1) ⊎ (◌≡◌ {A = ℕ} 2 2) ⊎ (◌≡◌ {A = ℕ} 2 3))
reply-pending_example =
    reply-pending documented host_api host pending_storage block 2 (success swap_events) replied

query_trader_balance_with_funding_payment-total_margin_example :
    query_trader_balance_with_funding_payment documented host_api host idle "alice"
    ≡ ok (total_margin (alice_position ∷ []))
query_trader_balance_with_funding_payment-total_margin_example =
    query_trader_balance_with_funding_payment-total_margin documented documented-IsUint128 host_api
      host idle "alice" (alice_position ∷ []) refl (("vamm", "alice", refl, refl, refl), tt)
      (omega arith)
