-- ===== src/Vamm/Swap.antt =====
-- Inversion of the two swaps of handle.rs: what has happened when one of them succeeds.
use mrgnd_perpetuals.Base.{
  ℕ, ◌*◌, ◌/◌, ◌^◌, ◌≤◌, ◌<◌, ◌≡◌, refl, ok, some, arith, >>=-eq-ok, map_err-eq-ok, map_err, sym,
  ◌∙◌,
}
use mrgnd_perpetuals.Base.Division.{
  ceil_div, le-mul-ceil_div, ceil_div-le, le-mul_of_le, le-mul_of_ceil,
}
use mrgnd_perpetuals.Cosmwasm.{Api, Env, MessageInfo, Response, documented}
use mrgnd_perpetuals.Perp.Messages.{Payload}
use mrgnd_perpetuals.Perp.Vamm.{Direction, add_to_amm, remove_from_amm}
use mrgnd_perpetuals.Vamm.State.{State, Config, Storage, std}
use mrgnd_perpetuals.Vamm.Handle.{
  get_input_price_with_reserves, get_output_price_with_reserves, moved, moved_reserves, flip,
  swap_input, swap_output, swap_response, update_reserve,
}
use mrgnd_perpetuals.Vamm.Price.{
  billion, price_at, price_at-ok, price_at-add, price_at-remove_inv, le-paid_in, get_input-price_at,
  get_output-price_at,
}
use mrgnd_perpetuals.Vamm.Reserves.{recorded, update_reserve_inv}

-- The invariant as both price functions compute it.
abbrev pub invariant_k : Config → State → ℕ
invariant_k c st = st.quote_asset_reserve * st.base_asset_reserve / c.decimals

-- A new state differs in its reserves, which moved in opposite directions.
pub moved_reserves_inv :
    (st : State) (direction : Direction) (q b : ℕ) {st' : State}
    → moved_reserves documented st direction q b ≡ ok st'
    → (moved documented direction st.quote_asset_reserve q ≡ ok st'.quote_asset_reserve)
      × (moved documented (flip direction) st.base_asset_reserve b ≡ ok st'.base_asset_reserve)
      × (st'.funding_rate ≡ st.funding_rate)
      × (st'.funding_period ≡ st.funding_period)
unfolding moved_reserves moved flip
moved_reserves_inv st add_to_amm q b h = ground arith
moved_reserves_inv st remove_from_amm q b h = ground arith

pub flip-flip : (d : Direction) → flip (flip d) ≡ d
unfolding flip
flip-flip add_to_amm = refl
flip-flip remove_from_amm = refl

le_of_moved : (x a : ℕ) {y : ℕ} → moved documented add_to_amm x a ≡ ok y → x ≤ y
unfolding moved
le_of_moved x a h = ground arith

-- The product of the reserves after a trade covers the invariant before it.
pub product-covers :
    (k x a y z r z' : ℕ) (direction : Direction)
    → k * billion ≤ x * z
    → moved documented direction x a ≡ ok y
    → price_at billion k y z direction ≡ ok r
    → moved documented (flip direction) z r ≡ ok z'
    → k * billion ≤ y * z'
unfolding moved flip
product-covers k x a y z r z' add_to_amm below my price mz =
    let (pos, fits) = price_at-ok billion k y z add_to_amm price in
    let under : k * billion ≤ y * z = le-mul_of_le (k * billion) x y z (le_of_moved x a my) below in
    ground (
      arith,
      price_at-add k y z pos fits under,
      ceil_div-le (k * billion) y pos z under,
      le-mul-ceil_div (k * billion) y pos,
    )
product-covers k x a y z r z' remove_from_amm below my price mz =
    let (pos, fits) = price_at-ok billion k y z remove_from_amm price in
    let reached : ceil_div (k * billion) y ≤ z' =
      ground (arith, price_at-remove_inv k y z price, le-paid_in (k * billion) y z) in
    le-mul_of_ceil (k * billion) y pos z' reached

module _ (s : Storage) {st : State} {c : Config} (es : s.state ≡ some st)
    (ec : s.config ≡ some c) where
  pub get_input_fits :
      (direction : Direction) (q : ℕ) {b : ℕ}
      → get_input_price_with_reserves documented s direction q ≡ ok b
      → (0 < c.decimals) × (st.quote_asset_reserve * st.base_asset_reserve < 2 ^ 128)
  unfolding get_input_price_with_reserves
  get_input_fits direction q h = ground arith

  get_output_fits :
      (direction : Direction) (b : ℕ) {q : ℕ}
      → get_output_price_with_reserves documented s direction b ≡ ok q
      → (0 < c.decimals) × (st.quote_asset_reserve * st.base_asset_reserve < 2 ^ 128)
  unfolding get_output_price_with_reserves
  get_output_fits direction b h = ground arith

  pub get_input_inv :
      (direction : Direction) (q : ℕ) {b : ℕ}
      → get_input_price_with_reserves documented s direction q ≡ ok b
      → (y : ℕ) × (moved documented direction st.quote_asset_reserve q ≡ ok y)
        × (price_at c.decimals (invariant_k c st) y st.base_asset_reserve direction ≡ ok b)
  get_input_inv direction q h =
      let (pos, fits) = get_input_fits direction q h in
      >>=-eq-ok (moved documented direction st.quote_asset_reserve q) _
        (sym (get_input-price_at s es ec direction q pos fits) ∙ h)

  pub get_output_inv :
      (direction : Direction) (b : ℕ) {q : ℕ}
      → get_output_price_with_reserves documented s direction b ≡ ok q
      → (y : ℕ) × (moved documented direction st.base_asset_reserve b ≡ ok y)
        × (price_at c.decimals (invariant_k c st) y st.quote_asset_reserve direction ≡ ok q)
  get_output_inv direction b h =
      let (pos, fits) = get_output_fits direction b h in
      >>=-eq-ok (moved documented direction st.base_asset_reserve b) _
        (sym (get_output-price_at s es ec direction b pos fits) ∙ h)

module _ (api : Api) (s : Storage) (env : Env) (info : MessageInfo) {st : State}
    (es : s.state ≡ some st) where
  -- A swap that succeeds has priced its amount and recorded the new reserves.
  pub swap_input_inv :
      (direction : Direction) (q : ℕ) {s' : Storage} {r : Response Payload}
      → swap_input documented api s env info direction q ≡ ok (s', r)
      → (b : ℕ) × (st' : State) × (get_input_price_with_reserves documented s direction q ≡ ok b)
        × (moved_reserves documented st direction q b ≡ ok st')
        × (s' ≡ recorded s env st')
        × (r ≡ swap_response api "swap_input" q b)
  unfolding swap_input
  swap_input_inv direction q h =
      let (b, eb, rest) =
        >>=-eq-ok (map_err std (get_input_price_with_reserves documented s direction q)) _ h in
      let (p, eu, last) =
        >>=-eq-ok (map_err std (update_reserve documented s env direction q b)) _ rest in
      let (st', em, same, _) =
        update_reserve_inv s env direction q b es {s' = p.0} {r = p.1} (map_err-eq-ok std _ eu) in
      (b, st', map_err-eq-ok std _ eb, em, cc, cc)

  pub swap_output_inv :
      (direction : Direction) (b : ℕ) {s' : Storage} {r : Response Payload}
      → swap_output documented api s env info direction b ≡ ok (s', r)
      → (q : ℕ) × (st' : State) × (get_output_price_with_reserves documented s direction b ≡ ok q)
        × (moved_reserves documented st (flip direction) q b ≡ ok st')
        × (s' ≡ recorded s env st')
        × (r ≡ swap_response api "swap_output" b q)
  unfolding swap_output
  swap_output_inv direction b h =
      let (q, eq, rest) =
        >>=-eq-ok (map_err std (get_output_price_with_reserves documented s direction b)) _ h in
      let (p, eu, last) =
        >>=-eq-ok (map_err std (update_reserve documented s env (flip direction) q b)) _ rest in
      let (st', em, same, _) =
        update_reserve_inv s env (flip direction) q b es {s' = p.0} {r = p.1}
          (map_err-eq-ok std _ eu) in
      (q, st', map_err-eq-ok std _ eq, em, cc, cc)
