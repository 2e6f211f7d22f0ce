-- ===== src/Engine/AccessTests.antt =====
-- The theorems about who calls the margin engine at a concrete storage.
use mrgnd_perpetuals.Base.{ℕ, ◌≡◌, refl, String, some, ok}
use mrgnd_perpetuals.Cosmwasm.{StdResult, MessageInfo, default_response, documented}
use mrgnd_perpetuals.Perp.Messages.{Payload}
use mrgnd_perpetuals.Perp.Engine.{Side, buy, ExecuteMsg, Cw20HookMsg, Cw20ReceiveMsg}
use mrgnd_perpetuals.Engine.State.{Imports, Storage, Config, any_is}
use mrgnd_perpetuals.Engine.Utils.{require_vamm}
use mrgnd_perpetuals.Engine.Handle.{
  update_config, open_position, is_increase, internal_increase_position,
}
use mrgnd_perpetuals.Engine.Query.{query_config}
use mrgnd_perpetuals.Engine.Access.{execute-receive_inv, execute-update_config_inv}
use mrgnd_perpetuals.Engine.Contract.{receive_cw20, execute}
use mrgnd_perpetuals.Engine.Fixture.{
  host_api, host, block, trader_info, engine_config, idle, pending_storage, open_response,
}

-- The collateral token's contract, and a host that decodes an order of alice.
abbrev token_info : MessageInfo
token_info = record { sender = "usdc" }

abbrev hook_host : Imports
hook_host = record host {
  from_binary = λ text. ok (Cw20HookMsg.open_position "vamm" buy 10000000000);
}

abbrev sixty : Cw20ReceiveMsg
sixty = record { sender = "alice"; amount = 60; msg = "order" }

received :
    execute documented host_api hook_host idle block token_info (ExecuteMsg.receive sixty)
    ≡ ok (pending_storage, open_response)
unfolding execute receive_cw20 open_position require_vamm is_increase internal_increase_position
    any_is
received = refl

execute-receive_inv_example :
    (config : Config) × (vamm : String) × (side : Side) × (leverage : ℕ) × (some engine_config
      ≡ some config)
    × (◌≡◌ {A = StdResult String} (ok "usdc") (ok config.eligible_collateral))
    × (hook_host.from_binary "order" ≡ ok (Cw20HookMsg.open_position vamm side leverage))
    × (execute documented host_api hook_host idle block trader_info
          (ExecuteMsg.open_position vamm side 60 leverage)
        ≡ ok (pending_storage, open_response))
execute-receive_inv_example =
    execute-receive_inv documented host_api hook_host idle block token_info sixty received

abbrev owner_info : MessageInfo
owner_info = record { sender = "owner" }

abbrev handed_over : Storage
handed_over = record idle { config = some (record engine_config { owner = "heir" }) }

updated :
    execute documented host_api host idle block owner_info (ExecuteMsg.update_config "heir")
    ≡ ok (handed_over, default_response)
unfolding execute update_config
updated = refl

execute-update_config_inv_example :
    (config : Config) × (addr : String) × (some engine_config ≡ some config)
    × (◌≡◌ {A = String} "owner" config.owner)
    × (◌≡◌ {A = StdResult String} (ok "heir") (ok addr))
    × (handed_over ≡ record idle { config = some (record config { owner = addr }) })
    × (default_response {P = Payload} ≡ default_response)
    × (query_config handed_over
        ≡ ok (record { owner = addr; eligible_collateral = config.eligible_collateral }))
execute-update_config_inv_example =
    execute-update_config_inv documented host_api host idle block owner_info "heir" updated
