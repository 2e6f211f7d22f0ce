-- ===== src/Engine/Orders.antt =====
-- The message that open_position of handle.rs sends for an order, told from the position that is
-- stored and the vAMM's price for it, without the functions that make it.
use mrgnd_perpetuals.Base.{
  ℕ, ◌≤◌, ◌<◌, ◌≡◌, ◌≢◌, ◌⊎◌, inl, inr, refl, sym, String, none, some, Option-cases, Bool-cases, ok,
  err, panic, ◌>>=◌, >>=-eq-ok, ok-injective, unwrap, if◌then◌else◌, ltb, ltb→lt, true, false,
  arith,
}
use mrgnd_perpetuals.Cosmwasm.{StdResult, Env, SubMsg, always}
use mrgnd_perpetuals.Perp.Messages.{Payload, to_vamm}
use mrgnd_perpetuals.Perp.Engine.{Side, buy, sell}
use mrgnd_perpetuals.Perp.Vamm.{Direction, add_to_amm, remove_from_amm, QueryMsg}
use mrgnd_perpetuals.Perp.Vamm
use mrgnd_perpetuals.Engine.State.{Imports, Storage, Position, position_key}
use mrgnd_perpetuals.Engine.Utils.{side_to_direction, direction_to_side}
use mrgnd_perpetuals.Engine.Querier.{query_vamm_output_price}
use mrgnd_perpetuals.Engine.Handle.{
  get_position, is_increase, internal_increase_position, open_reverse_position, swap_input,
  swap_output,
}

-- A buyer adds the quote asset to the vAMM, a seller removes it.
abbrev pub heading : Side → Direction
heading buy = add_to_amm
heading sell = remove_from_amm

abbrev pub vamm_msg : String → Vamm.ExecuteMsg → ℕ → SubMsg Payload
vamm_msg vamm msg id = record {
  contract_addr = vamm;
  msg = to_vamm msg;
  id = id;
  reply_on = always;
}

unwrap_inv : (m : StdResult ℕ) {n : ℕ} → ◌≡◌ {A = StdResult ℕ} (unwrap m) (ok n) → m ≡ ok n
unwrap_inv (ok a) h = h
unwrap_inv (err e) h = cc
unwrap_inv panic h = cc

module _ (host : Imports) (s : Storage) (vamm trader : String) (side : Side) (open_notional : ℕ)
    (msg : SubMsg Payload) where
  -- No position, or one in the order's direction: the whole notional is swapped.
  abbrev pub Adds : Type 0
  Adds =
      ((s.position (position_key host vamm trader) ≡ none)
        ⊎ ((p : Position) × (s.position (position_key host vamm trader) ≡ some p)
            × (p.direction ≡ heading side)))
      × (msg ≡ vamm_msg vamm (Vamm.ExecuteMsg.swap_input (heading side) open_notional) 1)

  -- A position in the other direction: the notional is swapped if the position is worth more,
  -- otherwise the position's whole size is swapped back.
  abbrev pub Opposes : Type 0
  Opposes =
      (p : Position) × (worth : ℕ) × (s.position (position_key host vamm trader) ≡ some p)
      × (p.direction ≢ heading side)
      × (host.query_wasm_smart vamm (QueryMsg.output_price p.direction p.size) ≡ ok worth)
      × (((open_notional < worth)
            × (msg ≡ vamm_msg vamm (Vamm.ExecuteMsg.swap_input (heading side) open_notional) 2))
          ⊎ ((worth ≤ open_notional)
              × (msg ≡ vamm_msg vamm (Vamm.ExecuteMsg.swap_output p.direction p.size) 3)))

  abbrev pub Asked : Type 0
  Asked = Adds ⊎ Opposes

side_to_direction-heading : (side : Side) → side_to_direction side ≡ heading side
unfolding side_to_direction
side_to_direction-heading buy = refl
side_to_direction-heading sell = refl

side_to_direction-direction_to_side : (d : Direction) → side_to_direction (direction_to_side d) ≡ d
unfolding side_to_direction direction_to_side
side_to_direction-direction_to_side add_to_amm = refl
side_to_direction-direction_to_side remove_from_amm = refl

-- What is_increase decides.
is_increase-heading :
    (d : Direction) (side : Side)
    → ((is_increase d side ≡ true) × (d ≡ heading side))
      ⊎ ((is_increase d side ≡ false) × (d ≢ heading side))
unfolding is_increase
is_increase-heading add_to_amm buy = inl (refl, refl)
is_increase-heading remove_from_amm sell = inl (refl, refl)
is_increase-heading add_to_amm sell = inr (refl, λ e. cc)
is_increase-heading remove_from_amm buy = inr (refl, λ e. cc)

new-is_increase : (side : Side) → is_increase (side_to_direction side) side ≡ true
unfolding is_increase side_to_direction
new-is_increase buy = refl
new-is_increase sell = refl

module _ (host : Imports) (env : Env) (s : Storage) (vamm trader : String) (side : Side)
    (open_notional : ℕ) {msg : SubMsg Payload} where
  adding_inv :
      internal_increase_position vamm side open_notional ≡ ok msg
      → msg ≡ vamm_msg vamm (Vamm.ExecuteMsg.swap_input (heading side) open_notional) 1
  unfolding internal_increase_position swap_input
  adding_inv h = rw (← side_to_direction-heading side) (sym (ok-injective h))

  opposing_inv :
      (p : Position)
      → s.position (position_key host vamm trader) ≡ some p
      → p.direction ≢ heading side
      → open_reverse_position host env s vamm trader side open_notional ≡ ok msg
      → Opposes host s vamm trader side open_notional msg
  unfolding open_reverse_position get_position query_vamm_output_price swap_input swap_output
  opposing_inv p e other h =
      let (worth, priced, rest) =
        >>=-eq-ok (unwrap (host.query_wasm_smart vamm (QueryMsg.output_price p.direction p.size))) _
          (rw e at h) in
      (
        p,
        worth,
        e,
        other,
        unwrap_inv _ priced,
        elim (Bool-cases (ltb open_notional worth)) [
          | inl less ↦ inl (
            ltb→lt open_notional worth less,
            rw (← side_to_direction-heading side) (sym (ok-injective (rw less at rest))),
          )
          | inr more ↦ inr (
            ground arith,
            sym (ok-injective (rw (more, side_to_direction-direction_to_side p.direction) at rest)),
          )
        ],
      )

  -- As open_position makes it.
  pub order_inv :
      (get_position host env s vamm trader side >>= λ position.
      (if is_increase position.direction side
        then internal_increase_position vamm side open_notional
        else open_reverse_position host env s vamm trader side open_notional))
        ≡ ok msg
      → Asked host s vamm trader side open_notional msg
  unfolding get_position
  order_inv h = elim (Option-cases (s.position (position_key host vamm trader))) [
    | inl fresh ↦ inl (inl fresh, adding_inv (rw (fresh, new-is_increase side) at h))
    | inr (p, e) ↦ elim (is_increase-heading p.direction side) [
      | inl (adds, same) ↦ inl (inr (p, e, same), adding_inv (rw (e, adds) at h))
      | inr (takes, other) ↦ inr (opposing_inv p e other (rw (e, takes) at h))
    ]
  ]
