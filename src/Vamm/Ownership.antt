-- ===== src/Vamm/Ownership.antt =====
-- What a call of execute in contract.rs changes by whom.
use mrgnd_perpetuals.Base.{◌≡◌, ◌≢◌, ap, subst, Option-cases, inl, inr, some, ok, arith, ℕ}
use mrgnd_perpetuals.Cosmwasm.{
  Api, Env, MessageInfo, Response, Uint128, IsUint128, eq-documented, documented,
}
use mrgnd_perpetuals.Perp.Messages.{Payload}
use mrgnd_perpetuals.Perp.Vamm.{ExecuteMsg, Direction}
use mrgnd_perpetuals.Vamm.State.{State, Config, Storage}
use mrgnd_perpetuals.Vamm.Handle.{
  swap_input, swap_output, flip, get_input_price_with_reserves, get_output_price_with_reserves,
}
use mrgnd_perpetuals.Vamm.Configuration.{update_config_inv}
use mrgnd_perpetuals.Vamm.Contract.{execute}
use mrgnd_perpetuals.Vamm.Reserves.{recorded}
use mrgnd_perpetuals.Vamm.Swap.{moved_reserves_inv, swap_input_inv, swap_output_inv}

-- A trade: a new pair of reserves is recorded, and nothing else of the state changes.
abbrev pub Trades : Storage → Env → Storage → Type 0
Trades s env s' =
    (st : State) × (st' : State) × (s.state ≡ some st)
    × (s' ≡ recorded s env st')
    × (st'.funding_rate ≡ st.funding_rate)
    × (st'.funding_period ≡ st.funding_period)

module _ (api : Api) (s : Storage) (env : Env) (info : MessageInfo) {s' : Storage}
    {r : Response Payload} where
  swap_input-Trades :
      (direction : Direction) (q : ℕ)
      → swap_input documented api s env info direction q ≡ ok (s', r)
      → Trades s env s'
  unfolding swap_input get_input_price_with_reserves
  swap_input-Trades direction q h = elim (Option-cases s.state) [
    | inl missing ↦ absurd (ground arith)
    | inr (st, es) ↦
        let (b, st', _, moves, same, _) = swap_input_inv api s env info es direction q h in
        let (_, _, rate, period) = moved_reserves_inv st direction q b moves in
        (st, st', es, same, rate, period)
  ]

  swap_output-Trades :
      (direction : Direction) (b : ℕ)
      → swap_output documented api s env info direction b ≡ ok (s', r)
      → Trades s env s'
  unfolding swap_output get_output_price_with_reserves
  swap_output-Trades direction b h = elim (Option-cases s.state) [
    | inl missing ↦ absurd (ground arith)
    | inr (st, es) ↦
        let (q, st', _, moves, same, _) = swap_output_inv api s env info es direction b h in
        let (_, _, rate, period) = moved_reserves_inv st (flip direction) q b moves in
        (st, st', es, same, rate, period)
  ]

  executed-Trades :
      (msg : ExecuteMsg) {c : Config}
      → s.config ≡ some c
      → info.sender ≢ c.owner
      → execute documented api s env info msg ≡ ok (s', r)
      → Trades s env s'
  unfolding execute
  executed-Trades (ExecuteMsg.update_config owner toll_ratio spread_ratio) ec other h =
      let (_, allowed, _, _, _) = update_config_inv api s info owner toll_ratio spread_ratio ec h in
      absurd (other allowed)
  executed-Trades (ExecuteMsg.swap_input direction q) ec other h = swap_input-Trades direction q h
  executed-Trades (ExecuteMsg.swap_output direction b) ec other h = swap_output-Trades direction b h

  -- With a stored configuration, a successful call of the vAMM's execute by anybody but the
  -- owner, with any message, keeps the configuration and changes the state in its reserves only,
  -- with the funding rate and period as they were; beyond that it adds nothing but a snapshot of
  -- the new reserves under the next counter.
  pub execute-Trades :
      (u : Uint128)
      → IsUint128 u
      → (msg : ExecuteMsg) {c : Config} → s.config ≡ some c
      → info.sender ≢ c.owner
      → execute u api s env info msg ≡ ok (s', r)
      → (s'.config ≡ s.config) × Trades s env s'
  execute-Trades u laws msg ec other h =
      let trades =
        executed-Trades msg ec other
          (subst (λ v. execute v api s env info msg ≡ ok (s', r)) (eq-documented u laws) h) in
      let (_, _, _, same, _, _) = trades in (ap (λ (t : Storage). t.config) same, trades)
