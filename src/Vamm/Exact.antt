-- ===== src/Vamm/Exact.antt =====
-- The two swaps that add to the market, in closed form, by the reserve that `left_at` gives.
use native.Mathlib.Nat.{div-mul-le_self, mul_comm}
use mrgnd_perpetuals.Base.{ℕ, ◌+◌, ◌-◌, ◌*◌, ◌/◌, ◌≤◌, ◌<◌, ◌^◌, ◌≡◌, refl, ok, arith, some, lt→ltb}
use mrgnd_perpetuals.Base.Division.{ceil_div, ceil_div-le, le-mul_of_le}
use mrgnd_perpetuals.Cosmwasm.{Api, Env, MessageInfo, Uint128, IsUint128, eq-documented, documented}
use mrgnd_perpetuals.Perp.Vamm.{add_to_amm, remove_from_amm}
use mrgnd_perpetuals.Vamm.State.{State, Storage, Config, counter_of}
use mrgnd_perpetuals.Vamm.Handle.{
  swap_input, swap_output, swap_response, moved, moved_reserves, get_input_price_with_reserves,
  get_output_price_with_reserves,
}
use mrgnd_perpetuals.Vamm.Price.{billion, price_at-add, get_input-price_at, get_output-price_at}
use mrgnd_perpetuals.Vamm.Reserves.{recorded, update_reserve-record_state}

-- The reserve that is left beside `y`, for the reserves of `st` before the trade.
abbrev pub left_at : State → ℕ → ℕ
left_at st y = ceil_div (st.quote_asset_reserve * st.base_asset_reserve / billion * billion) y

-- An added amount raises the reserve, and the invariant before it stays within reach.
le-left : (n x z a : ℕ) → n ≡ x * z → n / billion * billion ≤ (x + a) * z
le-left n x z a e =
    le-mul_of_le (n / billion * billion) x (x + a) z (omega arith)
      (omega (arith, div-mul-le_self n billion))

moved-add : (x a : ℕ) → x + a < 2 ^ 128 → moved documented add_to_amm x a ≡ ok (x + a)
unfolding moved
moved-add x a room = ground arith

pub scaled-lt : (n : ℕ) → n < 2 ^ 128 → n / billion * billion < 2 ^ 128
scaled-lt n h = omega (arith, div-mul-le_self n billion)

module _ (s : Storage) {st : State} {c : Config} (es : s.state ≡ some st) (ec : s.config ≡ some c)
    (nine : c.decimals ≡ billion)
    (fits : st.quote_asset_reserve * st.base_asset_reserve < 2 ^ 128) where
  get_input-add :
      (q : ℕ)
      → 0 < st.quote_asset_reserve + q
      → st.quote_asset_reserve + q < 2 ^ 128
      → get_input_price_with_reserves documented s add_to_amm q
        ≡ ok (st.base_asset_reserve - left_at st (st.quote_asset_reserve + q))
  get_input-add q pos room =
      let n = st.quote_asset_reserve * st.base_asset_reserve in
      rw
        (
          get_input-price_at s es ec add_to_amm q (rw nine (omega arith)) fits,
          moved-add st.quote_asset_reserve q room,
          nine,
        )
        (price_at-add (n / billion) (st.quote_asset_reserve + q) st.base_asset_reserve pos
          (scaled-lt n fits) (le-left n st.quote_asset_reserve st.base_asset_reserve q refl))

  pub get_output-add :
      (b : ℕ)
      → 0 < st.base_asset_reserve + b
      → st.base_asset_reserve + b < 2 ^ 128
      → get_output_price_with_reserves documented s add_to_amm b
        ≡ ok (st.quote_asset_reserve - left_at st (st.base_asset_reserve + b))
  get_output-add b pos room =
      let n = st.quote_asset_reserve * st.base_asset_reserve in
      rw
        (
          get_output-price_at s es ec add_to_amm b (rw nine (omega arith)) fits,
          moved-add st.base_asset_reserve b room,
          nine,
        )
        (price_at-add (n / billion) (st.base_asset_reserve + b) st.quote_asset_reserve pos
          (scaled-lt n fits)
          (le-left n st.base_asset_reserve st.quote_asset_reserve b
            (mul_comm st.quote_asset_reserve st.base_asset_reserve)))

-- What is left is no more than there was.
pub left_at-le-base :
    (st : State) (q : ℕ)
    → 0 < st.quote_asset_reserve + q
    → left_at st (st.quote_asset_reserve + q) ≤ st.base_asset_reserve
left_at-le-base st q pos =
    let n = st.quote_asset_reserve * st.base_asset_reserve in
    ceil_div-le (n / billion * billion) (st.quote_asset_reserve + q) pos st.base_asset_reserve
      (le-left n st.quote_asset_reserve st.base_asset_reserve q refl)

pub left_at-le-quote :
    (st : State) (b : ℕ)
    → 0 < st.base_asset_reserve + b
    → left_at st (st.base_asset_reserve + b) ≤ st.quote_asset_reserve
left_at-le-quote st b pos =
    let n = st.quote_asset_reserve * st.base_asset_reserve in
    ceil_div-le (n / billion * billion) (st.base_asset_reserve + b) pos st.quote_asset_reserve (
      le-left n st.base_asset_reserve st.quote_asset_reserve b
        (mul_comm st.quote_asset_reserve st.base_asset_reserve))

-- The state after quote is added, and after base is added.
abbrev pub quote_added : State → ℕ → State
quote_added st q = record st {
  quote_asset_reserve = st.quote_asset_reserve + q;
  base_asset_reserve = left_at st (st.quote_asset_reserve + q);
}

abbrev pub base_added : State → ℕ → State
base_added st b = record st {
  quote_asset_reserve = left_at st (st.base_asset_reserve + b);
  base_asset_reserve = st.base_asset_reserve + b;
}

moved_reserves-quote_added :
    (st : State) (q : ℕ)
    → 0 < st.quote_asset_reserve + q
    → st.quote_asset_reserve + q < 2 ^ 128
    → moved_reserves documented st add_to_amm q
        (st.base_asset_reserve - left_at st (st.quote_asset_reserve + q))
      ≡ ok (quote_added st q)
unfolding moved_reserves
moved_reserves-quote_added st q pos room = ground (arith, left_at-le-base st q pos)

moved_reserves-base_added :
    (st : State) (b : ℕ)
    → 0 < st.base_asset_reserve + b
    → st.base_asset_reserve + b < 2 ^ 128
    → moved_reserves documented st remove_from_amm
        (st.quote_asset_reserve - left_at st (st.base_asset_reserve + b))
        b
      ≡ ok (base_added st b)
unfolding moved_reserves
moved_reserves-base_added st b pos room = ground (arith, left_at-le-quote st b pos)

module _ (u : Uint128) (laws : IsUint128 u) (api : Api) (s : Storage) (env : Env)
    (info : MessageInfo) {st : State} {c : Config} (es : s.state ≡ some st) (ec : s.config ≡ some c)
    (nine : c.decimals ≡ billion) (fits : st.quote_asset_reserve * st.base_asset_reserve < 2 ^ 128)
    (counts : counter_of s + 1 < 2 ^ 64) where
  -- In a market of nine decimals whose counter has room, where the product of the reserves is
  -- below 2^128 and the new quote reserve is positive and below 2^128, swap_input that adds to
  -- the market succeeds; the base reserve becomes the invariant, scaled, over the new quote
  -- reserve, rounded up, the difference is paid out, and a snapshot of the new reserves is
  -- recorded under the next counter.
  pub swap_input-add :
      (q : ℕ)
      → 0 < st.quote_asset_reserve + q
      → st.quote_asset_reserve + q < 2 ^ 128
      → swap_input u api s env info add_to_amm q
        ≡ ok (
          recorded s env (quote_added st q),
          swap_response api "swap_input" q
              (st.base_asset_reserve - left_at st (st.quote_asset_reserve + q)),
        )
  unfolding swap_input
  swap_input-add q pos room = rw (
    eq-documented u laws,
    get_input-add s es ec nine fits q pos room,
    update_reserve-record_state s env add_to_amm q
        (st.base_asset_reserve - left_at st (st.quote_asset_reserve + q)) es,
    moved_reserves-quote_added st q pos room,
    lt→ltb _ _ counts,
  )

  -- In a market of nine decimals whose counter has room, where the product of the reserves is
  -- below 2^128 and the new base reserve is positive and below 2^128, swap_output that adds base
  -- asset succeeds; the quote reserve becomes the invariant, scaled, over the new base reserve,
  -- rounded up, the difference is paid out, and a snapshot of the new reserves is recorded under
  -- the next counter.
  pub swap_output-add :
      (b : ℕ)
      → 0 < st.base_asset_reserve + b
      → st.base_asset_reserve + b < 2 ^ 128
      → swap_output u api s env info add_to_amm b
        ≡ ok (
          recorded s env (base_added st b),
          swap_response api "swap_output" b
              (st.quote_asset_reserve - left_at st (st.base_asset_reserve + b)),
        )
  unfolding swap_output
  swap_output-add b pos room = rw (
    eq-documented u laws,
    get_output-add s es ec nine fits b pos room,
    update_reserve-record_state s env remove_from_amm
        (st.quote_asset_reserve - left_at st (st.base_asset_reserve + b)) b es,
    moved_reserves-base_added st b pos room,
    lt→ltb _ _ counts,
  )
