-- ===== src/Pricefeed/TwapSteps.antt =====
-- Samples of the rounds of a key, and the rounds of the loop of query_get_twap_price in query.rs.
use mrgnd_perpetuals.Base.{
  ℕ, zero, suc, ◌+◌, ◌-◌, ◌*◌, ◌/◌, ◌≤◌, ◌<◌, ◌^◌, ◌≡◌, ◌≢◌, List, [], ◌∷◌, ok, panic, arith, some,
  lt→leb, le→leb, lt→ltb, ne→==,
}
use mrgnd_perpetuals.Cosmwasm.{Api, documented}
use mrgnd_perpetuals.Pricefeed.State.{PriceData, default_price, last}
use mrgnd_perpetuals.Pricefeed.Query.{twap_loop}

-- The rounds 1, …, `n` of a key, the last first, have these prices and seconds, and the seconds do
-- not fall; round 0 is the one of zeros.
abbrev pub Sampled : Api → (ℕ → ℕ) → (ℕ → ℕ) → ℕ → List PriceData → Type 0
Sampled api price_of time_of n [] = ⊥
Sampled api price_of time_of zero (x ∷ xs) = (x ≡ default_price) × (xs ≡ [])
Sampled api price_of time_of (suc n) (x ∷ xs) =
    (x.round_id ≡ suc n)
    × (x.price ≡ price_of (suc n))
    × (api.seconds x.timestamp ≡ time_of (suc n))
    × (0 < n → time_of n ≤ time_of (suc n))
    × Sampled api price_of time_of n xs

module _ (api : Api) (interval base : ℕ) (x y : PriceData) (prices : List PriceData)
    (later : x.round_id ≢ 1) (t cumulative w p t' : ℕ) (price : y.price ≡ p)
    (before_x : last prices ≡ some y) (time : api.seconds y.timestamp ≡ t') where
  pub loop-old :
      t' ≤ base
      → base ≤ t
      → 0 < interval
      → w + p * (t - base) < 2 ^ 128
      → twap_loop documented api interval base (x ∷ prices) t cumulative w
        ≡ ok ((w + p * (t - base)) / interval)
  unfolding twap_loop
  loop-old old before pos room = rw (before_x, price, time) (ground arith)

  pub loop-new :
      base < t'
      → t' ≤ t
      → w + p * (t - t') < 2 ^ 128
      → cumulative + (t - t') < 2 ^ 128
      → twap_loop documented api interval base (x ∷ prices) t cumulative w
        ≡ twap_loop documented api interval base prices t'
            (cumulative + (t - t'))
            (w + p * (t - t'))
  unfolding twap_loop
  loop-new new before room room' =
      let term : p * (t - t') < 2 ^ 128 = omega arith in
      rw (
        ne→== x.round_id 1 later,
        before_x,
        price,
        time,
        lt→leb t' base new,
        le→leb t' t before,
        lt→ltb (p * (t - t')) (2 ^ 128) term,
        lt→ltb (w + p * (t - t')) (2 ^ 128) room,
        lt→ltb (cumulative + (t - t')) (2 ^ 128) room',
      )

  -- The start of the interval is after the round before: `checked_sub` fails and is unwrapped.
  pub loop-stale :
      t' ≤ base
      → t < base
      → twap_loop documented api interval base (x ∷ prices) t cumulative w ≡ panic
  unfolding twap_loop
  loop-stale old after = rw (before_x, price, time) (ground arith)
