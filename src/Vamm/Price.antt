-- ===== src/Vamm/Price.antt =====
-- The arithmetic that the two price functions of handle.rs share, at the documented arithmetic:
-- from the invariant `k`, the reserve `y` after the trade and the other reserve `z` before it.
use native.Mathlib.Nat.{div-add-mod, mod-lt}
use mrgnd_perpetuals.Base.{
  ℕ, ◌+◌, ◌-◌, ◌*◌, ◌/◌, ◌%◌, ◌^◌, ◌≤◌, ◌<◌, ◌≡◌, ok, panic, ◌>>=◌, some, arith, ltb, if◌then◌else◌,
}
use mrgnd_perpetuals.Base.Division.{ceil_div, ceil_div-cases, ceil_div-le}
use mrgnd_perpetuals.Cosmwasm.{StdResult, documented}
use mrgnd_perpetuals.Perp.Vamm.{Direction, add_to_amm, remove_from_amm}
use mrgnd_perpetuals.Vamm.State.{State, Config, Storage}
use mrgnd_perpetuals.Vamm.Decimals.{modulo}
use mrgnd_perpetuals.Vamm.Handle.{
  get_input_price_with_reserves, get_output_price_with_reserves, difference, round, moved,
}

abbrev pub billion : ℕ
billion = 1_000_000_000

pub modulo-documented :
    (a b : ℕ) → 0 < b → a * billion < 2 ^ 128 → modulo documented a b ≡ ok (a * billion % b)
unfolding modulo
modulo-documented a b pos fits =
    ground (arith, div-add-mod (a * billion) b, mod-lt (a * billion) pos)

modulo-panic : (a b : ℕ) → 2 ^ 128 ≤ a * billion → modulo documented a b ≡ panic
unfolding modulo
modulo-panic a b h = ground arith

-- What both price functions do once the reserve after the trade is known.
abbrev pub price_at : ℕ → ℕ → ℕ → ℕ → Direction → StdResult ℕ
price_at decimals k y z direction = do
  scaled_k ← documented.checked_mul k decimals
  after ← documented.checked_div scaled_k y
  amount ← difference documented after z
  remainder ← modulo documented k y
  round documented direction remainder amount

-- The distance of `z` to the quotient of `n` by `y`, and one more for a remainder.
abbrev pub paid_in : ℕ → ℕ → ℕ → ℕ
paid_in n y z = (if ltb z (n / y) then n / y - z else z - n / y) + (ceil_div n y - n / y)

module _ (k y z : ℕ) (pos : 0 < y) (fits : k * billion < 2 ^ 128) where
  -- Paid out of the reserve `z`: exactly down to the rounded quotient.
  pub price_at-add :
      k * billion ≤ y * z → price_at billion k y z add_to_amm ≡ ok (z - ceil_div (k * billion) y)
  unfolding round
  price_at-add below = ground (
    arith,
    modulo-documented k y pos fits,
    ceil_div-cases (k * billion) y,
    ceil_div-le (k * billion) y pos z below,
  )

  -- Taken into the reserve `z`: its distance to the quotient, and one more for a remainder.
  pub price_at-remove :
      paid_in (k * billion) y z < 2 ^ 128
      → price_at billion k y z remove_from_amm ≡ ok (paid_in (k * billion) y z)
  unfolding round
  price_at-remove small =
      ground (arith, modulo-documented k y pos fits, ceil_div-cases (k * billion) y)

pub le-paid_in : (n y z : ℕ) → ceil_div n y ≤ z + paid_in n y z
le-paid_in n y z = ground (arith, ceil_div-cases n y)

-- A price that was computed was not cut off by an overflow or a division by zero.
pub price_at-ok :
    (decimals k y z : ℕ) (direction : Direction) {r : ℕ}
    → price_at decimals k y z direction ≡ ok r
    → (0 < y) × (k * billion < 2 ^ 128)
price_at-ok decimals k y z direction h = ground (arith, modulo-panic k y)

pub price_at-remove_inv :
    (k y z : ℕ) {r : ℕ}
    → price_at billion k y z remove_from_amm ≡ ok r
    → r ≡ paid_in (k * billion) y z
unfolding round
price_at-remove_inv k y z h =
    let (pos, fits) = price_at-ok billion k y z remove_from_amm h in
    ground (arith, modulo-documented k y pos fits, ceil_div-cases (k * billion) y)

module _ (s : Storage) {st : State} {c : Config} (es : s.state ≡ some st)
    (ec : s.config ≡ some c) where
  pub get_input-price_at :
      (direction : Direction) (q : ℕ)
      → 0 < c.decimals
      → st.quote_asset_reserve * st.base_asset_reserve < 2 ^ 128
      → let k = st.quote_asset_reserve * st.base_asset_reserve / c.decimals in
        get_input_price_with_reserves documented s direction q ≡ (
          moved documented direction st.quote_asset_reserve q >>= λ y.
          price_at c.decimals k y st.base_asset_reserve direction)
  unfolding get_input_price_with_reserves
  get_input-price_at direction q pos fits = ground arith

  pub get_output-price_at :
      (direction : Direction) (b : ℕ)
      → 0 < c.decimals
      → st.quote_asset_reserve * st.base_asset_reserve < 2 ^ 128
      → let k = st.quote_asset_reserve * st.base_asset_reserve / c.decimals in
        get_output_price_with_reserves documented s direction b ≡ (
          moved documented direction st.base_asset_reserve b >>= λ y.
          price_at c.decimals k y st.quote_asset_reserve direction)
  unfolding get_output_price_with_reserves
  get_output-price_at direction b pos fits = ground arith
