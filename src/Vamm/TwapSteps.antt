-- ===== src/Vamm/TwapSteps.antt =====
-- Samples of the snapshots, and the rounds of the loop of calc_reserve_twap in query.rs.
use mrgnd_perpetuals.Base.{ℕ, suc, ◌+◌, ◌-◌, ◌*◌, ◌/◌, ◌≤◌, ◌<◌, ◌^◌, ◌≡◌, ◌⊎◌, ok, arith, some}
use mrgnd_perpetuals.Cosmwasm.{Api, Env, Uint128, documented}
use mrgnd_perpetuals.Vamm.State.{Storage, Config, ReserveSnapshot, counter_of}
use mrgnd_perpetuals.Vamm.Query.{reserve_price, twap_loop, calc_reserve_twap}

-- The snapshot under the counter `i` has the price `p` and the second `t`.
abbrev pub Sample : Uint128 → Api → Storage → Config → ℕ → ℕ → ℕ → Type 0
Sample u api s c i p t =
    (x : ReserveSnapshot) × (s.reserve_snapshot i ≡ some x)
    × (reserve_price u c x.quote_asset_reserve x.base_asset_reserve ≡ ok p)
    × (api.seconds x.timestamp ≡ t)

-- The snapshots 1, …, `n` have these prices and seconds, and the seconds do not fall.
pub record Sampled (u : Uint128) (api : Api) (s : Storage) (c : Config) (price_of time_of : ℕ → ℕ)
    (n : ℕ) : Type 0 where
  pub stored : (i : ℕ) → 0 < i → i ≤ n → Sample u api s c i (price_of i) (time_of i)
  pub ordered : (i : ℕ) → 0 < i → i < n → time_of i ≤ time_of (suc i)

pub Sampled-before :
    {u : Uint128} {api : Api} {s : Storage} {c : Config} {price_of time_of : ℕ → ℕ} {n : ℕ}
    → Sampled u api s c price_of time_of (suc n)
    → Sampled u api s c price_of time_of n
Sampled-before v = record {
  stored = λ i pos h. v.stored i pos (omega arith);
  ordered = λ i pos h. v.ordered i pos (omega arith);
}

module _ (api : Api) (s : Storage) (c : Config) (n p t : ℕ)
    (at : Sample documented api s c (suc n) p t) where
  -- The round that reaches the start of the interval.
  pub loop-old :
      (interval base prev period w : ℕ)
      → t ≤ base
      → base ≤ prev
      → 0 < interval
      → w + p * (prev - base) < 2 ^ 128
      → twap_loop documented api s c (suc n) interval base prev period w
        ≡ ok ((w + p * (prev - base)) / interval)
  unfolding twap_loop
  loop-old interval base prev period w old before pos room =
      let (x, stored, price, time) = at in rw (stored, price, time) (ground arith)

  pub loop-new :
      (interval base prev period w : ℕ)
      → base < t
      → t ≤ prev
      → w + p * (prev - t) < 2 ^ 128
      → period + (prev - t) < 2 ^ 128
      → twap_loop documented api s c (suc n) interval base prev period w
        ≡ twap_loop documented api s c n interval base t (period + (prev - t)) (w + p * (prev - t))
  unfolding twap_loop
  loop-new interval base prev period w new before room room' =
      let (x, stored, price, time) = at in rw (stored, price, time) (ground arith)

module _ (api : Api) (s : Storage) (env : Env) {c : Config} (ec : s.config ≡ some c) (n p t : ℕ)
    (count : counter_of s ≡ suc n) (at : Sample documented api s c (suc n) p t) where
  -- The last snapshot is old enough, or the only one, or the interval is zero.
  pub calc-last :
      (interval : ℕ)
      → interval ≤ api.seconds env.time
      → (interval ≡ 0) ⊎ (n ≡ 0) ⊎ (t ≤ api.seconds env.time - interval)
      → calc_reserve_twap documented api s env interval ≡ ok p
  unfolding calc_reserve_twap
  calc-last interval h cases =
      let (x, stored, price, time) = at in rw (ec, count, stored, price, time) (ground arith)

  pub calc-loop :
      (interval : ℕ)
      → 0 < interval
      → interval ≤ api.seconds env.time
      → 0 < n
      → api.seconds env.time - interval < t
      → t ≤ api.seconds env.time
      → p * (api.seconds env.time - t) < 2 ^ 128
      → calc_reserve_twap documented api s env interval
        ≡ twap_loop documented api s c n interval
            (api.seconds env.time - interval)
            t
            (api.seconds env.time - t)
            (p * (api.seconds env.time - t))
  unfolding calc_reserve_twap
  calc-loop interval pos h more new past room =
      let (x, stored, price, time) = at in
      let back : suc n - 1 ≡ n = omega arith in
      rw (ec, count, stored, price, time, ← back) (ground arith)
