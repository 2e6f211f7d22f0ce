-- ===== src/Vamm/RoundTrip.antt =====
-- Quote put into the market by swap_input, and the base that it bought put back by swap_output.
use native.Mathlib.Nat.{div-mul-le_self}
use mrgnd_perpetuals.Base.{
  zero, suc, ℕ, ◌+◌, ◌-◌, ◌*◌, ◌/◌, ◌≤◌, ◌<◌, ◌^◌, ◌≡◌, refl, ok, arith, some,
}
use mrgnd_perpetuals.Base.Division.{ceil_div, mul-ceil_div-lt, le-mul-ceil_div, lt-ceil_div}
use mrgnd_perpetuals.Cosmwasm.{Api, Env, MessageInfo, Uint128, IsUint128}
use mrgnd_perpetuals.Perp.Vamm.{add_to_amm}
use mrgnd_perpetuals.Vamm.State.{State, Storage, Config, counter_of}
use mrgnd_perpetuals.Vamm.Handle.{swap_input, swap_output, swap_response}
use mrgnd_perpetuals.Vamm.Price.{billion}
use mrgnd_perpetuals.Vamm.Reserves.{recorded}
use mrgnd_perpetuals.Vamm.Exact.{
  left_at, quote_added, base_added, left_at-le-base, swap_input-add, swap_output-add,
}

-- The base that `q` buys, and the quote that this base brings back.
abbrev pub bought : State → ℕ → ℕ
bought st q = st.base_asset_reserve - left_at st (st.quote_asset_reserve + q)

abbrev pub brought_back : State → ℕ → ℕ
brought_back st q =
    st.quote_asset_reserve
    + q
    - left_at (quote_added st q) (left_at st (st.quote_asset_reserve + q) + bought st q)

-- The product of the reserves after the first trade: at least the scaled invariant, and less than
-- one reserve above it.
product_bounds :
    (st : State) (q : ℕ)
    → 0 < st.quote_asset_reserve + q
    → let n = st.quote_asset_reserve * st.base_asset_reserve / billion * billion in
      let y = st.quote_asset_reserve + q in (n ≤ y * left_at st y) × (y * left_at st y < n + y)
product_bounds st q pos =
    let n = st.quote_asset_reserve * st.base_asset_reserve / billion * billion in
    (
      le-mul-ceil_div n (st.quote_asset_reserve + q) pos,
      mul-ceil_div-lt n (st.quote_asset_reserve + q) pos,
    )

-- With a base reserve of one whole unit, the invariant of a product that reaches the scaled
-- invariant of `x * z` is reached at `z` by no less than `x`.
le-ceil_div-scaled :
    (x z p : ℕ)
    → billion ≤ z
    → x * z / billion * billion ≤ p
    → x ≤ ceil_div (p / billion * billion) z
le-ceil_div-scaled zero z p large reach = omega arith
le-ceil_div-scaled (suc x) z p large reach =
    lt-ceil_div (p / billion * billion) z (omega arith) x (omega arith)

-- No profit.
brought_back-le :
    (st : State) (q : ℕ)
    → 0 < st.quote_asset_reserve + q
    → billion ≤ st.base_asset_reserve
    → brought_back st q ≤ q
brought_back-le st q pos large =
    let y = st.quote_asset_reserve + q in
    let whole : left_at st y + bought st q ≡ st.base_asset_reserve =
      omega (arith, left_at-le-base st q pos) in
    rw whole (
      omega (
        arith,
        le-ceil_div-scaled st.quote_asset_reserve st.base_asset_reserve (y * left_at st y) large
            (product_bounds st q pos).0,
      ))

module _ (u : Uint128) (laws : IsUint128 u) (api : Api) (s : Storage) (env₁ env₂ : Env)
    (info₁ info₂ : MessageInfo) {st : State} {c : Config} (es : s.state ≡ some st)
    (ec : s.config ≡ some c) (nine : c.decimals ≡ billion)
    (counts : counter_of s + 2 < 2 ^ 64) where
  -- In a market of nine decimals with a base reserve that fits 128 bits and is at least one
  -- whole unit and a counter that has room for two snapshots, where the quote reserve with the
  -- amount is positive and, added to the product of the reserves, fits 128 bits, an amount added
  -- by swap_input and the base asset it bought, added back by swap_output, both succeed with the
  -- stated storages and responses, and bring back no more than was paid.
  pub swap_output-swap_input :
      (q : ℕ)
      → 0 < st.quote_asset_reserve + q
      → billion ≤ st.base_asset_reserve
      → st.quote_asset_reserve * st.base_asset_reserve + st.quote_asset_reserve + q < 2 ^ 128
      → st.base_asset_reserve < 2 ^ 128
      → let b = bought st q in
        let q' = brought_back st q in
        let s₁ = recorded s env₁ (quote_added st q) in
        let s₂ = recorded s₁ env₂ (base_added (quote_added st q) b) in
        (swap_input u api s env₁ info₁ add_to_amm q ≡ ok (s₁, swap_response api "swap_input" q b))
        × (swap_output u api s₁ env₂ info₂ add_to_amm b
            ≡ ok (s₂, swap_response api "swap_output" b q'))
        × (q' ≤ q)
  swap_output-swap_input q pos large room base_fits =
      let (low, high) = product_bounds st q pos in
      let whole = left_at-le-base st q pos in
      let s₁ = recorded s env₁ (quote_added st q) in
      (
        swap_input-add u laws api s env₁ info₁ es ec nine (omega arith) (omega arith) q pos
            (omega arith),
        swap_output-add u laws api s₁ env₂ info₂ refl ec nine
            (omega (
              arith,
              high,
              div-mul-le_self (st.quote_asset_reserve * st.base_asset_reserve) billion,
            ))
            (omega arith) (bought st q) (omega (arith, whole)) (omega (arith, whole)),
        brought_back-le st q pos large,
      )
