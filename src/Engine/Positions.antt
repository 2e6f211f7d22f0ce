-- ===== src/Engine/Positions.antt =====
-- What the replies of reply.rs do with a position: its new values, the messages, and the checked
-- operations where they succeed.
use mrgnd_perpetuals.Base.{
  ℕ, ◌+◌, ◌-◌, ◌*◌, ◌/◌, ◌^◌, ◌≤◌, ◌<◌, ◌≡◌, refl, String, Option, ok, if◌then◌else◌, ltb, lt→ltb,
  le→leb, ne→==, ltb→lt, Bool-cases, inl, inr, arith,
}
use mrgnd_perpetuals.Cosmwasm.{documented, Env, SubMsg, always, never}
use mrgnd_perpetuals.Perp.Messages.{Payload, to_vamm, to_cw20, transfer, transfer_from}
use mrgnd_perpetuals.Perp.Vamm
use mrgnd_perpetuals.Engine.State.{
  Imports, Storage, Config, Position, Swap, position_key, save_position,
}
use mrgnd_perpetuals.Engine.Utils.{side_to_direction}
use mrgnd_perpetuals.Engine.Handle.{position_or_new, swap_increase_reply_id}
use mrgnd_perpetuals.Engine.Reply.{remaining}

-- The position that a pending swap is about, and the storage with it replaced.
abbrev pub current : Imports → Env → Storage → Swap → Position
current host env s swap =
    position_or_new env swap.vamm swap.trader swap.side
      (s.position (position_key host swap.vamm swap.trader))

abbrev pub stored : Imports → Storage → Position → Option Swap → Storage
stored host s position tmp_swap = record s {
  position = save_position s.position (position_key host position.vamm position.trader) position;
  tmp_swap = tmp_swap;
}

-- What the margin of a position of this notional is.
abbrev pub margin_of : Config → Swap → ℕ → ℕ
margin_of config swap notional = notional * config.decimals / swap.leverage

abbrev pub collateral_msg : Config → String → String → ℕ → SubMsg Payload
collateral_msg config owner receiver amount = record {
  contract_addr = config.eligible_collateral;
  msg = to_cw20 (transfer_from owner receiver amount);
  id = 0;
  reply_on = never;
}

pub checked_add-ok : (a b : ℕ) → a + b < 2 ^ 128 → documented.checked_add a b ≡ ok (a + b)
checked_add-ok a b h = rw (lt→ltb (a + b) (2 ^ 128) h) refl

pub checked_mul-ok : (a b : ℕ) → a * b < 2 ^ 128 → documented.checked_mul a b ≡ ok (a * b)
checked_mul-ok a b h = rw (lt→ltb (a * b) (2 ^ 128) h) refl

pub checked_sub-ok : (a b : ℕ) → b ≤ a → documented.checked_sub a b ≡ ok (a - b)
checked_sub-ok a b h = rw (le→leb b a h) refl

pub checked_div-ok : (a b : ℕ) → 0 < b → documented.checked_div a b ≡ ok (a / b)
checked_div-ok a b h = rw (ne→== b 0 (omega arith)) refl

-- The notional that a swap leaves after the closed position brought `output`, or the other way
-- round.
abbrev pub distance : ℕ → ℕ → ℕ
distance a b = if ltb b a then a - b else b - a

abbrev pub emptied : Env → Position → Position
emptied env position = record position { size = 0; margin = 0; notional = 0; timestamp = env.time }

abbrev pub returned_msg : Config → String → ℕ → SubMsg Payload
returned_msg config receiver amount = record {
  contract_addr = config.eligible_collateral;
  msg = to_cw20 (transfer receiver amount);
  id = 0;
  reply_on = never;
}

abbrev pub reopening_msg : Swap → ℕ → SubMsg Payload
reopening_msg swap open_notional = record {
  contract_addr = swap.vamm;
  msg = to_vamm (Vamm.ExecuteMsg.swap_input (side_to_direction swap.side) open_notional);
  id = swap_increase_reply_id;
  reply_on = always;
}

pub remaining-distance : (a b : ℕ) → remaining documented a b ≡ ok (distance a b)
remaining-distance a b = elim (Bool-cases (ltb b a)) [
  | inl less ↦ rw (less, checked_sub-ok a b (omega (arith, ltb→lt b a less))) refl
  | inr more ↦ rw (more, checked_sub-ok b a (ground arith)) refl
]
