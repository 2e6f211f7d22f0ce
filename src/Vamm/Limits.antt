-- ===== src/Vamm/Limits.antt =====
-- swap_input and swap_output at the limits: a withdrawn reserve, the amount zero, other decimals.
use native.Mathlib.Nat.{
  div-mul-le_self, div-add-mod, div-lt_iff_lt-mul, div-le_of_le-mul, le_trans, add-zero,
}
use Prim.Native.Nat.{suc-le-suc}
use mrgnd_perpetuals.Base.{
  ℕ, ◌+◌, ◌-◌, ◌*◌, ◌/◌, ◌%◌, ◌≤◌, ◌<◌, ◌^◌, ◌≡◌, ok, err, arith, some, ◌==◌, ap, if◌then◌else◌,
  ◌>>=◌, zero, suc,
}
use mrgnd_perpetuals.Base.Division.{ceil_div, ceil_div-le, le-mul_of_le}
use mrgnd_perpetuals.Cosmwasm.{
  Api, Env, MessageInfo, Response, Uint128, IsUint128, eq-documented, documented, StdError,
  overflow, divide_by_zero,
}
use mrgnd_perpetuals.Perp.Messages.{Payload}
use mrgnd_perpetuals.Perp.Vamm.{add_to_amm, remove_from_amm}
use mrgnd_perpetuals.Vamm.State.{State, Storage, Config, counter_of, std}
use mrgnd_perpetuals.Vamm.Handle.{
  swap_input, swap_output, swap_response, moved, moved_reserves, get_input_price_with_reserves,
  flip, round,
}
use mrgnd_perpetuals.Vamm.Price.{
  billion, price_at, price_at-ok, modulo-documented, get_input-price_at, get_output-price_at,
}
use mrgnd_perpetuals.Vamm.Reserves.{recorded}
use mrgnd_perpetuals.Vamm.Swap.{
  invariant_k, get_input_inv, get_input_fits, swap_input_inv, moved_reserves_inv,
}
use mrgnd_perpetuals.Vamm.Exact.{left_at, quote_added, swap_input-add}

-- The error of a withdrawal of `a` from a reserve of `x ≤ a`.
abbrev pub emptied : ℕ → ℕ → StdError
emptied x a = if x == a then divide_by_zero else overflow

moved-emptied :
    (k x a z decimals : ℕ)
    → x ≤ a
    → k * decimals < 2 ^ 128
    → (moved documented remove_from_amm x a >>= λ y. price_at decimals k y z remove_from_amm)
      ≡ err (emptied x a)
unfolding moved
moved-emptied k x a z decimals h fits = ground arith

module _ (u : Uint128) (laws : IsUint128 u) (api : Api) (s : Storage) (env : Env)
    (info : MessageInfo) {st : State} {c : Config} (es : s.state ≡ some st) (ec : s.config ≡ some c)
    (pos : 0 < c.decimals) (fits : st.quote_asset_reserve * st.base_asset_reserve < 2 ^ 128) where
  -- In a market of positive decimals where the product of the reserves is below 2^128,
  -- swap_input that would take the whole quote reserve is the error of a division by zero, and
  -- one that would take more is the error of an overflow.
  pub swap_input-emptied :
      (q : ℕ)
      → st.quote_asset_reserve ≤ q
      → swap_input u api s env info remove_from_amm q ≡ err (std (emptied st.quote_asset_reserve q))
  unfolding swap_input
  swap_input-emptied q h =
      let n = st.quote_asset_reserve * st.base_asset_reserve in
      rw (
        eq-documented u laws,
        get_input-price_at s es ec remove_from_amm q pos fits,
        moved-emptied (n / c.decimals) st.quote_asset_reserve q st.base_asset_reserve c.decimals h
            (le_trans (suc-le-suc (div-mul-le_self n c.decimals)) fits),
      )

  -- In a market of positive decimals where the product of the reserves is below 2^128,
  -- swap_output that would take the whole base reserve is the error of a division by zero, and
  -- one that would take more is the error of an overflow.
  pub swap_output-emptied :
      (b : ℕ)
      → st.base_asset_reserve ≤ b
      → swap_output u api s env info remove_from_amm b ≡ err (std (emptied st.base_asset_reserve b))
  unfolding swap_output
  swap_output-emptied b h =
      let n = st.quote_asset_reserve * st.base_asset_reserve in
      rw (
        eq-documented u laws,
        get_output-price_at s es ec remove_from_amm b pos fits,
        moved-emptied (n / c.decimals) st.base_asset_reserve b st.quote_asset_reserve c.decimals h
            (le_trans (suc-le-suc (div-mul-le_self n c.decimals)) fits),
      )

-- The invariant is cut off by more than the whole of `x`, so less than `z` covers it.
left-lt : (x z : ℕ) → 0 < x → x < x * z % billion → ceil_div (x * z / billion * billion) x < z
left-lt x zero pos h = absurd (omega arith)
left-lt x (suc z) pos h =
    let below : x * suc z / billion * billion ≤ x * z = omega arith in
    omega (arith, ceil_div-le (x * suc z / billion * billion) x pos z below)

-- In a market of nine decimals whose counter has room, where the product of the reserves is
-- below 2^128 and the quote reserve is positive, below 2^128 and less than what the division by
-- 10^9 cuts off that product, swap_input of the amount zero succeeds and pays out a positive
-- amount.
pub swap_input-zero :
    (u : Uint128)
    → IsUint128 u
    → (api : Api) (s : Storage) (env : Env) (info : MessageInfo) {st : State} {c : Config}
    → s.state ≡ some st
    → s.config ≡ some c
    → c.decimals ≡ billion
    → st.quote_asset_reserve * st.base_asset_reserve < 2 ^ 128
    → counter_of s + 1 < 2 ^ 64
    → 0 < st.quote_asset_reserve
    → st.quote_asset_reserve < 2 ^ 128
    → st.quote_asset_reserve < st.quote_asset_reserve * st.base_asset_reserve % billion
    → let b = st.base_asset_reserve - left_at st (st.quote_asset_reserve + 0) in
      (swap_input u api s env info add_to_amm 0
        ≡ ok (recorded s env (quote_added st 0), swap_response api "swap_input" 0 b))
      × (0 < b)
swap_input-zero u laws api s env info {st} es ec nine fits counts pos room cut = (
  swap_input-add u laws api s env info es ec nine fits counts 0 (omega arith) (omega arith),
  rw add-zero (omega (arith, left-lt st.quote_asset_reserve st.base_asset_reserve pos cut)),
)

moved-add_inv : (x a : ℕ) {y : ℕ} → moved documented add_to_amm x a ≡ ok y → y ≡ x + a
unfolding moved
moved-add_inv x a h = ground arith

-- A remainder at the market's decimals that `modulo` does not see is paid out.
unrounded :
    (decimals k y z r z' : ℕ)
    → k * billion % y ≡ 0
    → 0 < k * decimals % y
    → k * decimals ≤ y * z
    → price_at decimals k y z add_to_amm ≡ ok r
    → moved documented remove_from_amm z r ≡ ok z'
    → y * z' < k * decimals
unfolding round moved
unrounded decimals k y z r z' exact inexact below price mz =
    let (pos, fits) = price_at-ok decimals k y z add_to_amm price in
    let quotient : z' ≡ k * decimals / y =
      ground (arith, modulo-documented k y pos fits, div-le_of_le-mul y below) in
    rw quotient (omega (arith, div-add-mod (k * decimals) y))

module _ (u : Uint128) (laws : IsUint128 u) (api : Api) (s : Storage) (env : Env)
    (info : MessageInfo) {st : State} {c : Config} (es : s.state ≡ some st)
    (ec : s.config ≡ some c) where
  loses_documented :
      (q b : ℕ) (st' : State)
      → invariant_k c st * billion % (st.quote_asset_reserve + q) ≡ 0
      → 0 < invariant_k c st * c.decimals % (st.quote_asset_reserve + q)
      → get_input_price_with_reserves documented s add_to_amm q ≡ ok b
      → moved_reserves documented st add_to_amm q b ≡ ok st'
      → invariant_k c st' < invariant_k c st
  unfolding flip
  loses_documented q b st' exact inexact priced em =
      let k = invariant_k c st in
      let (y, my, price) = get_input_inv s es ec add_to_amm q priced in
      let (mq, mb, _, _) = moved_reserves_inv st add_to_amm q b em in
      let sum : y ≡ st.quote_asset_reserve + q = moved-add_inv st.quote_asset_reserve q my in
      let sum' : st'.quote_asset_reserve ≡ st.quote_asset_reserve + q =
        moved-add_inv st.quote_asset_reserve q mq in
      (div-lt_iff_lt-mul (get_input_fits s es ec add_to_amm q priced).0).1 (
        rw sum' (
          unrounded c.decimals (invariant_k c st) (st.quote_asset_reserve + q) st.base_asset_reserve
            b st'.base_asset_reserve exact inexact
            (le-mul_of_le (k * c.decimals) st.quote_asset_reserve (st.quote_asset_reserve + q)
              st.base_asset_reserve (omega arith) (div-mul-le_self _ c.decimals))
            (rw sum at price) mb))

  -- In a market of any decimals, a successful swap_input that adds an amount, where the
  -- invariant times the market's decimals is not divisible by the new quote reserve but the
  -- invariant times 10^9 is, lowers the invariant.
  pub swap_input-loses :
      (q : ℕ) {s' : Storage} {r : Response Payload}
      → invariant_k c st * billion % (st.quote_asset_reserve + q) ≡ 0
      → 0 < invariant_k c st * c.decimals % (st.quote_asset_reserve + q)
      → swap_input u api s env info add_to_amm q ≡ ok (s', r)
      → (st' : State) × (s'.state ≡ some st') × (invariant_k c st' < invariant_k c st)
  swap_input-loses = rw (eq-documented u laws) λ q s' r exact inexact h.
      let (b, st', priced, em, same, _) = swap_input_inv api s env info es add_to_amm q h in
      (st', ap (λ (t : Storage). t.state) same, loses_documented q b st' exact inexact priced em)
