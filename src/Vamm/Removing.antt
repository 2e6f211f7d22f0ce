-- ===== src/Vamm/Removing.antt =====
-- The two swaps that remove from the market, in closed form, by what `paid_in` says is taken in.
use mrgnd_perpetuals.Base.{ℕ, ◌+◌, ◌-◌, ◌*◌, ◌/◌, ◌≤◌, ◌<◌, ◌^◌, ◌≡◌, ok, arith, some, lt→ltb}
use mrgnd_perpetuals.Cosmwasm.{Api, Env, MessageInfo, Uint128, IsUint128, eq-documented, documented}
use mrgnd_perpetuals.Perp.Vamm.{add_to_amm, remove_from_amm}
use mrgnd_perpetuals.Vamm.State.{State, Storage, Config, counter_of}
use mrgnd_perpetuals.Vamm.Handle.{
  swap_input, swap_output, swap_response, moved, moved_reserves, get_input_price_with_reserves,
  get_output_price_with_reserves,
}
use mrgnd_perpetuals.Vamm.Price.{
  billion, paid_in, price_at-remove, get_input-price_at, get_output-price_at,
}
use mrgnd_perpetuals.Vamm.Exact.{scaled-lt}
use mrgnd_perpetuals.Vamm.Reserves.{recorded, update_reserve-record_state}

-- What is taken into the reserve `z` when the other one goes down to `y`.
abbrev pub taken_at : State → ℕ → ℕ → ℕ
taken_at st y z = paid_in (st.quote_asset_reserve * st.base_asset_reserve / billion * billion) y z

-- The state after quote is removed, and after base is removed.
abbrev pub quote_removed : State → ℕ → State
quote_removed st q = record st {
  quote_asset_reserve = st.quote_asset_reserve - q;
  base_asset_reserve =
      st.base_asset_reserve + taken_at st (st.quote_asset_reserve - q) st.base_asset_reserve;
}

abbrev pub base_removed : State → ℕ → State
base_removed st b = record st {
  quote_asset_reserve =
      st.quote_asset_reserve + taken_at st (st.base_asset_reserve - b) st.quote_asset_reserve;
  base_asset_reserve = st.base_asset_reserve - b;
}

moved-remove : (x a : ℕ) → a ≤ x → moved documented remove_from_amm x a ≡ ok (x - a)
unfolding moved
moved-remove x a enough = ground arith

module _ (s : Storage) {st : State} {c : Config} (es : s.state ≡ some st) (ec : s.config ≡ some c)
    (nine : c.decimals ≡ billion)
    (fits : st.quote_asset_reserve * st.base_asset_reserve < 2 ^ 128) where
  get_input-remove :
      (q : ℕ)
      → q < st.quote_asset_reserve
      → taken_at st (st.quote_asset_reserve - q) st.base_asset_reserve < 2 ^ 128
      → get_input_price_with_reserves documented s remove_from_amm q
        ≡ ok (taken_at st (st.quote_asset_reserve - q) st.base_asset_reserve)
  get_input-remove q less room =
      let n = st.quote_asset_reserve * st.base_asset_reserve in
      rw
        (
          get_input-price_at s es ec remove_from_amm q (rw nine (omega arith)) fits,
          moved-remove st.quote_asset_reserve q (omega arith),
          nine,
        )
        (price_at-remove (n / billion) (st.quote_asset_reserve - q) st.base_asset_reserve
          (omega arith) (scaled-lt n fits) room)

  get_output-remove :
      (b : ℕ)
      → b < st.base_asset_reserve
      → taken_at st (st.base_asset_reserve - b) st.quote_asset_reserve < 2 ^ 128
      → get_output_price_with_reserves documented s remove_from_amm b
        ≡ ok (taken_at st (st.base_asset_reserve - b) st.quote_asset_reserve)
  get_output-remove b less room =
      let n = st.quote_asset_reserve * st.base_asset_reserve in
      rw
        (
          get_output-price_at s es ec remove_from_amm b (rw nine (omega arith)) fits,
          moved-remove st.base_asset_reserve b (omega arith),
          nine,
        )
        (price_at-remove (n / billion) (st.base_asset_reserve - b) st.quote_asset_reserve
          (omega arith) (scaled-lt n fits) room)

moved_reserves-quote_removed :
    (st : State) (q taken : ℕ)
    → q ≤ st.quote_asset_reserve
    → st.base_asset_reserve + taken < 2 ^ 128
    → moved_reserves documented st remove_from_amm q taken
      ≡ ok (record st {
        quote_asset_reserve = st.quote_asset_reserve - q;
        base_asset_reserve = st.base_asset_reserve + taken;
      })
unfolding moved_reserves
moved_reserves-quote_removed st q taken enough room = ground arith

moved_reserves-base_removed :
    (st : State) (b taken : ℕ)
    → b ≤ st.base_asset_reserve
    → st.quote_asset_reserve + taken < 2 ^ 128
    → moved_reserves documented st add_to_amm taken b
      ≡ ok (record st {
        quote_asset_reserve = st.quote_asset_reserve + taken;
        base_asset_reserve = st.base_asset_reserve - b;
      })
unfolding moved_reserves
moved_reserves-base_removed st b taken enough room = ground arith

module _ (u : Uint128) (laws : IsUint128 u) (api : Api) (s : Storage) (env : Env)
    (info : MessageInfo) {st : State} {c : Config} (es : s.state ≡ some st) (ec : s.config ≡ some c)
    (nine : c.decimals ≡ billion) (fits : st.quote_asset_reserve * st.base_asset_reserve < 2 ^ 128)
    (counts : counter_of s + 1 < 2 ^ 64) where
  -- In a market of nine decimals whose counter has room, where the product of the reserves is
  -- below 2^128, swap_input that removes less than the quote reserve succeeds if the new base
  -- reserve is below 2^128; it takes the distance of the base reserve to the invariant, scaled,
  -- over the new quote reserve, and one more if that division leaves a remainder, and a snapshot
  -- of the new reserves is recorded under the next counter.
  pub swap_input-remove :
      (q : ℕ)
      → q < st.quote_asset_reserve
      → st.base_asset_reserve + taken_at st (st.quote_asset_reserve - q) st.base_asset_reserve
        < 2 ^ 128
      → swap_input u api s env info remove_from_amm q
        ≡ ok (
          recorded s env (quote_removed st q),
          swap_response api "swap_input" q
              (taken_at st (st.quote_asset_reserve - q) st.base_asset_reserve),
        )
  unfolding swap_input
  swap_input-remove q less room =
      let taken = taken_at st (st.quote_asset_reserve - q) st.base_asset_reserve in
      rw (
        eq-documented u laws,
        get_input-remove s es ec nine fits q less (omega (arith, room)),
        update_reserve-record_state s env remove_from_amm q taken es,
        moved_reserves-quote_removed st q taken (omega arith) room,
        lt→ltb _ _ counts,
      )

  pub swap_output-remove :
      (b : ℕ)
      → b < st.base_asset_reserve
      → st.quote_asset_reserve + taken_at st (st.base_asset_reserve - b) st.quote_asset_reserve
        < 2 ^ 128
      → swap_output u api s env info remove_from_amm b
        ≡ ok (
          recorded s env (base_removed st b),
          swap_response api "swap_output" b
              (taken_at st (st.base_asset_reserve - b) st.quote_asset_reserve),
        )
  unfolding swap_output
  swap_output-remove b less room =
      let taken = taken_at st (st.base_asset_reserve - b) st.quote_asset_reserve in
      rw (
        eq-documented u laws,
        get_output-remove s es ec nine fits b less (omega (arith, room)),
        update_reserve-record_state s env add_to_amm taken b es,
        moved_reserves-base_removed st b taken (omega arith) room,
        lt→ltb _ _ counts,
      )
