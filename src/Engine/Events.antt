-- ===== src/Engine/Events.antt =====
-- parse_swap of contract.rs against the responses of the vAMM's handlers.
use mrgnd_perpetuals.Base.{ℕ, ◌<◌, ◌^◌, ◌≡◌, refl, String, [], ◌∷◌, ok, some, arith}
use mrgnd_perpetuals.Cosmwasm.{
  Uint128, IsUint128, eq-documented, documented, Api, MessageInfo, Env, Response,
}
use mrgnd_perpetuals.Perp.Messages.{Payload}
use mrgnd_perpetuals.Perp.Vamm.{Direction, add_to_amm, remove_from_amm}
use mrgnd_perpetuals.Vamm.State.{State, Storage}
use mrgnd_perpetuals.Vamm.Handle.{
  swap_input, swap_output, swap_response, get_input_price_with_reserves,
  get_output_price_with_reserves, moved, flip,
}
use mrgnd_perpetuals.Vamm.Swap.{swap_input_inv, swap_output_inv, moved_reserves_inv}
use mrgnd_perpetuals.Engine.Contract.{Event, parse_swap, find_event, find_attribute}

-- The event that the host makes of a response: the contract's address, then its attributes.
abbrev pub wasm_event : String → Response Payload → Event
wasm_event contract r = record {
  ty = "wasm";
  attributes = ("_contract_address", contract) ∷ r.attributes;
}

parse_swap-swap_response :
    (api : Api) (contract action : String) (input output : ℕ)
    → ((n : ℕ) → n < 2 ^ 128 → api.from_str (api.to_string n) ≡ ok n)
    → input < 2 ^ 128
    → output < 2 ^ 128
    → parse_swap api (wasm_event contract (swap_response api action input output) ∷ [])
      ≡ ok (input, output)
unfolding parse_swap find_event find_attribute
parse_swap-swap_response api contract action input output round_trip small_input small_output =
    rw (round_trip input small_input, round_trip output small_output) refl

-- What moves in or out of a reserve of 128 bits has 128 bits.
moved-lt :
    (direction : Direction) (x a : ℕ) {y : ℕ}
    → x < 2 ^ 128
    → moved documented direction x a ≡ ok y
    → a < 2 ^ 128
unfolding moved
moved-lt add_to_amm x a small h = ground arith
moved-lt remove_from_amm x a small h = ground arith

module _ (u : Uint128) (laws : IsUint128 u) (api : Api) (s : Storage) (env : Env)
    (info : MessageInfo) {st : State} (es : s.state ≡ some st) (direction : Direction) (amount : ℕ)
    (small : amount < 2 ^ 128) (contract : String)
    (round_trip : (n : ℕ) → n < 2 ^ 128 → api.from_str (api.to_string n) ≡ ok n) where
  -- After a successful swap_input of the vAMM, of an amount below 2^128 and with a base reserve
  -- below 2^128, parse_swap reads from the event of its response the amount that was swapped and
  -- the price that the vAMM computed for it, where `from_str` undoes `to_string` on numbers
  -- below 2^128.
  pub parse_swap-swap_input :
      {s' : Storage} {r : Response Payload}
      → st.base_asset_reserve < 2 ^ 128
      → swap_input u api s env info direction amount ≡ ok (s', r)
      → (other : ℕ) × (get_input_price_with_reserves u s direction amount ≡ ok other)
        × (parse_swap api (wasm_event contract r ∷ []) ≡ ok (amount, other))
  parse_swap-swap_input = rw (eq-documented u laws) λ reserve h.
      let (other, st', e, moves, _, same) = swap_input_inv api s env info es direction amount h in
      let (_, base, _, _) = moved_reserves_inv st direction amount other moves in
      let small_other = moved-lt (flip direction) st.base_asset_reserve other reserve base in
      (
        other,
        e,
        rw same (
            parse_swap-swap_response api contract "swap_input" amount other round_trip small
              small_other),
      )

  -- After a successful swap_output of the vAMM, of an amount below 2^128 and with a quote
  -- reserve below 2^128, parse_swap reads from the event of its response the amount that was
  -- swapped and the price that the vAMM computed for it, where `from_str` undoes `to_string` on
  -- numbers below 2^128.
  pub parse_swap-swap_output :
      {s' : Storage} {r : Response Payload}
      → st.quote_asset_reserve < 2 ^ 128
      → swap_output u api s env info direction amount ≡ ok (s', r)
      → (other : ℕ) × (get_output_price_with_reserves u s direction amount ≡ ok other)
        × (parse_swap api (wasm_event contract r ∷ []) ≡ ok (amount, other))
  parse_swap-swap_output = rw (eq-documented u laws) λ reserve h.
      let (other, st', e, moves, _, same) = swap_output_inv api s env info es direction amount h in
      let (quote, _, _, _) = moved_reserves_inv st (flip direction) other amount moves in
      let small_other = moved-lt (flip direction) st.quote_asset_reserve other reserve quote in
      (
        other,
        e,
        rw same (
            parse_swap-swap_response api contract "swap_output" amount other round_trip small
              small_other),
      )
