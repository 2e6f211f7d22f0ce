-- ===== src/Engine/Replies.antt =====
-- reply.rs: what the three replies do to the positions, in closed form.
use mrgnd_perpetuals.Base.{
  ℕ, ◌+◌, ◌-◌, ◌*◌, ◌/◌, ◌^◌, ◌≤◌, ◌<◌, ◌≡◌, refl, none, some, [], ◌∷◌, ok, if◌then◌else◌, ◌==◌,
  Bool-cases, inl, inr,
}
use mrgnd_perpetuals.Cosmwasm.{Uint128, IsUint128, eq-documented, documented, Env, default_response}
use mrgnd_perpetuals.Engine.State.{Imports, Storage, Config, Swap}
use mrgnd_perpetuals.Engine.Utils.{side_to_direction}
use mrgnd_perpetuals.Engine.Handle.{
  get_position, clear_position, internal_increase_position, swap_input,
}
use mrgnd_perpetuals.Engine.Reply.{
  increase_position_reply, decrease_position_reply, reverse_position_reply, some_swap,
  execute_transfer, execute_transfer_from,
}
use mrgnd_perpetuals.Engine.Positions.{
  current, stored, margin_of, collateral_msg, checked_add-ok, checked_mul-ok, checked_sub-ok,
  checked_div-ok, distance, emptied, returned_msg, reopening_msg, remaining-distance,
}

module _ (host : Imports) (s : Storage) (env : Env) (input output : ℕ) {config : Config}
    {swap : Swap} (ec : s.config ≡ some config) (es : s.tmp_swap ≡ some swap) where
  increase-documented :
      (current host env s swap).size + output < 2 ^ 128
      → (current host env s swap).notional + swap.open_notional < 2 ^ 128
      → ((current host env s swap).notional + swap.open_notional) * config.decimals < 2 ^ 128
      → 0 < swap.leverage
      → increase_position_reply documented host s env input output
        ≡ ok (
          stored host s
              (record (current host env s swap) {
                size = (current host env s swap).size + output;
                notional = (current host env s swap).notional + swap.open_notional;
                direction = side_to_direction swap.side;
                margin =
                    margin_of config swap ((current host env s swap).notional + swap.open_notional);
              })
              none,
          record {
            messages =
                collateral_msg config swap.trader env.contract
                  (margin_of config swap ((current host env s swap).notional + swap.open_notional))
                ∷ [];
            attributes = [];
          },
        )
  unfolding increase_position_reply some_swap execute_transfer_from get_position
  increase-documented sizes notionals scaled leverage =
      let old = current host env s swap in
      rw
        (
          ec,
          es,
          checked_add-ok old.size output sizes,
          checked_add-ok old.notional swap.open_notional notionals,
          checked_mul-ok (old.notional + swap.open_notional) config.decimals scaled,
          checked_div-ok ((old.notional + swap.open_notional) * config.decimals) swap.leverage
              leverage,
        )
        refl

  decrease-documented :
      output ≤ (current host env s swap).size
      → swap.open_notional ≤ (current host env s swap).notional
      → decrease_position_reply documented host s env input output
        ≡ ok (
          stored host s
              (record (current host env s swap) {
                size = (current host env s swap).size - output;
                notional = (current host env s swap).notional - swap.open_notional;
              })
              none,
          default_response,
        )
  unfolding decrease_position_reply some_swap get_position
  decrease-documented sizes notionals =
      let old = current host env s swap in
      rw
        (
          es,
          checked_sub-ok old.size output sizes,
          checked_sub-ok old.notional swap.open_notional notionals,
        )
        refl

  reverse-documented :
      0 < swap.leverage
      → reverse_position_reply documented host s env input output ≡ (
          if distance swap.open_notional output / swap.leverage == 0
          then ok (
            stored host s (emptied env (current host env s swap)) none,
            record {
              messages = returned_msg config swap.trader (current host env s swap).margin ∷ [];
              attributes = [];
            },
          )
          else ok (
            stored host s
                (emptied env (current host env s swap))
                (some (record swap { open_notional = distance swap.open_notional output })),
            record {
              messages = reopening_msg swap (distance swap.open_notional output) ∷ [];
              attributes = [];
            },
          ))
  unfolding reverse_position_reply some_swap get_position clear_position execute_transfer
      internal_increase_position swap_input
  reverse-documented leverage =
      rw
        (
          es,
          remaining-distance swap.open_notional output,
          checked_div-ok (distance swap.open_notional output) swap.leverage leverage,
          ec,
        )
        (elim (Bool-cases (distance swap.open_notional output / swap.leverage == 0)) [
          | inl zero_left ↦ rw zero_left refl
          | inr some_left ↦ rw some_left refl
        ])

module _ (u : Uint128) (laws : IsUint128 u) (host : Imports) (s : Storage) (env : Env)
    (input output : ℕ) {config : Config} {swap : Swap} (ec : s.config ≡ some config)
    (es : s.tmp_swap ≡ some swap) where
  -- With a configuration and a pending swap of nonzero leverage, where the new size, the new
  -- notional and the product of the new notional and the decimals are below 2^128,
  -- increase_position_reply succeeds: it adds the output to the position's size and the swap's
  -- notional to its notional, sets its direction by the side, sets its margin to the whole new
  -- notional over the leverage, drops the pending swap, changes nothing else, and asks for that
  -- whole margin from the trader.
  pub increase_position_reply_lem :
      (current host env s swap).size + output < 2 ^ 128
      → (current host env s swap).notional + swap.open_notional < 2 ^ 128
      → ((current host env s swap).notional + swap.open_notional) * config.decimals < 2 ^ 128
      → 0 < swap.leverage
      → increase_position_reply u host s env input output
        ≡ ok (
          stored host s
              (record (current host env s swap) {
                size = (current host env s swap).size + output;
                notional = (current host env s swap).notional + swap.open_notional;
                direction = side_to_direction swap.side;
                margin =
                    margin_of config swap ((current host env s swap).notional + swap.open_notional);
              })
              none,
          record {
            messages =
                collateral_msg config swap.trader env.contract
                  (margin_of config swap ((current host env s swap).notional + swap.open_notional))
                ∷ [];
            attributes = [];
          },
        )
  increase_position_reply_lem sizes notionals scaled leverage =
      rw (eq-documented u laws)
        (increase-documented host s env input output ec es sizes notionals scaled leverage)

  -- With a configuration and a pending swap whose notional, and an output, that the position
  -- covers, decrease_position_reply succeeds: it takes them from the position's notional and
  -- size, drops the pending swap, and changes nothing else, the margin included, and sends
  -- nothing.
  pub decrease_position_reply_lem :
      output ≤ (current host env s swap).size
      → swap.open_notional ≤ (current host env s swap).notional
      → decrease_position_reply u host s env input output
        ≡ ok (
          stored host s
              (record (current host env s swap) {
                size = (current host env s swap).size - output;
                notional = (current host env s swap).notional - swap.open_notional;
              })
              none,
          default_response,
        )
  decrease_position_reply_lem sizes notionals =
      rw (eq-documented u laws) (decrease-documented host s env input output ec es sizes notionals)

  -- With a configuration and a pending swap of nonzero leverage, reverse_position_reply succeeds
  -- and empties the position. If less than one unit of margin remains of the notional after the
  -- closing, it sends the old margin to the trader and drops the pending swap; otherwise it
  -- sends nothing to the trader, keeps the swap with the notional that remains, and asks the
  -- vAMM for an increase by that.
  pub reverse_position_reply_lem :
      0 < swap.leverage
      → reverse_position_reply u host s env input output ≡ (
          if distance swap.open_notional output / swap.leverage == 0
          then ok (
            stored host s (emptied env (current host env s swap)) none,
            record {
              messages = returned_msg config swap.trader (current host env s swap).margin ∷ [];
              attributes = [];
            },
          )
          else ok (
            stored host s
                (emptied env (current host env s swap))
                (some (record swap { open_notional = distance swap.open_notional output })),
            record {
              messages = reopening_msg swap (distance swap.open_notional output) ∷ [];
              attributes = [];
            },
          ))
  reverse_position_reply_lem leverage =
      rw (eq-documented u laws) (reverse-documented host s env input output ec es leverage)
