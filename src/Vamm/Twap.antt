-- ===== src/Vamm/Twap.antt =====
-- calc_reserve_twap of query.rs against the average that Twap defines.
use native.Mathlib.Nat.{mul-div_left}
use mrgnd_perpetuals.Base.{
  ℕ, zero, suc, ◌+◌, ◌-◌, ◌*◌, ◌/◌, ◌≤◌, ◌<◌, ◌^◌, ◌≡◌, ok, arith, some, Bool-cases, inl, inr, leb,
  leb→le,
}
use mrgnd_perpetuals.Cosmwasm.{Api, Env, Uint128, IsUint128, eq-documented, documented}
use mrgnd_perpetuals.Vamm.State.{Storage, Config, counter_of}
use mrgnd_perpetuals.Vamm.Query.{twap_loop, calc_reserve_twap, query_twap_price}
use mrgnd_perpetuals.Twap.{price_sum, price_sum-old, price_sum-inside}
use mrgnd_perpetuals.Vamm.TwapSteps.{
  Sampled-before, loop-old, loop-new, calc-last, calc-loop, Sampled,
}

module _ (api : Api) (s : Storage) (c : Config) (price_of time_of : ℕ → ℕ) where
  -- The loop adds up the prices of the seconds between the start of the interval and `prev`.
  loop-reaches :
      (n interval base prev period w : ℕ)
      → Sampled documented api s c price_of time_of (suc n)
      → time_of 1 ≤ base
      → base ≤ prev
      → time_of (suc n) ≤ prev
      → 0 < interval
      → w + price_sum price_of time_of (suc n) base (prev - base) < 2 ^ 128
      → period + (prev - base) < 2 ^ 128
      → twap_loop documented api s c (suc n) interval base prev period w
        ≡ ok ((w + price_sum price_of time_of (suc n) base (prev - base)) / interval)
  loop-reaches zero interval base prev period w v reach before last pos room room' =
      let old = price_sum-old price_of time_of zero base (prev - base) reach in
      rw old (
        loop-old api s c zero (price_of 1) (time_of 1) (v.stored 1 (omega arith) (omega arith))
          interval base prev period w reach before pos (rw old at room))
  loop-reaches (suc n) interval base prev period w v reach before last pos room room' =
      let p = price_of (suc (suc n)) in
      let t = time_of (suc (suc n)) in
      let at = v.stored (suc (suc n)) (omega arith) (omega arith) in
      elim (Bool-cases (leb t base)) [
        | inl le ↦
            let is_old : t ≤ base = leb→le t base le in
            let old = price_sum-old price_of time_of (suc n) base (prev - base) is_old in
            rw old (
              loop-old api s c (suc n) p t at interval base prev period w is_old before pos
                (rw old at room))
        | inr gt ↦
            let is_new : base < t = ground arith in
            let new = price_sum-inside price_of time_of (suc n) base prev (omega arith) last in
            let rest = price_sum price_of time_of (suc n) base (t - base) in
            let sum : w + (rest + p * (prev - t)) ≡ w + p * (prev - t) + rest = omega arith in
            rw
              (
                new,
                sum,
                loop-new api s c (suc n) p t at interval base prev period w is_new last
                    (omega (arith, new)) (omega arith),
              )
              (loop-reaches n interval base t (period + (prev - t)) (w + p * (prev - t))
                (Sampled-before v) reach (omega arith)
                (v.ordered (suc n) (omega arith) (omega arith)) pos (omega (arith, new))
                (omega arith))
      ]

module _ (api : Api) (s : Storage) (env : Env) {c : Config} (ec : s.config ≡ some c)
    (price_of time_of : ℕ → ℕ) (interval : ℕ) (pos : 0 < interval)
    (h : interval ≤ api.seconds env.time) (small : api.seconds env.time < 2 ^ 64) where
  abbrev start : ℕ
  start = api.seconds env.time - interval

  average-old :
      (n : ℕ)
      → counter_of s ≡ suc n
      → Sampled documented api s c price_of time_of (suc n)
      → time_of (suc n) ≤ start
      → calc_reserve_twap documented api s env interval
        ≡ ok (price_sum price_of time_of (suc n) start interval / interval)
  average-old n count v old =
      rw (price_sum-old price_of time_of n start interval old, mul-div_left (price_of (suc n)) pos)
        (calc-last api s env ec n (price_of (suc n)) (time_of (suc n)) count
          (v.stored (suc n) (omega arith) (omega arith)) interval h (inr (inr old)))

  average-new :
      (n : ℕ)
      → counter_of s ≡ suc (suc n)
      → Sampled documented api s c price_of time_of (suc (suc n))
      → time_of 1 ≤ start
      → start < time_of (suc (suc n))
      → time_of (suc (suc n)) ≤ api.seconds env.time
      → price_sum price_of time_of (suc (suc n)) start interval < 2 ^ 128
      → calc_reserve_twap documented api s env interval
        ≡ ok (price_sum price_of time_of (suc (suc n)) start interval / interval)
  average-new n count v reach new past room =
      let now = api.seconds env.time in
      let p = price_of (suc (suc n)) in
      let t = time_of (suc (suc n)) in
      let rest = price_sum price_of time_of (suc n) start (t - start) in
      let whole : now - start ≡ interval = omega arith in
      let parts : price_sum price_of time_of (suc (suc n)) start interval ≡ p * (now - t) + rest =
        omega (
          arith,
          rw whole at (price_sum-inside price_of time_of (suc n) start now (omega arith) past),
        ) in
      rw
        (
          parts,
          calc-loop api s env ec (suc n) p t count
              (v.stored (suc (suc n)) (omega arith) (omega arith)) interval pos h (omega arith) new
              past (omega (arith, parts)),
        )
        (loop-reaches api s c price_of time_of n interval start t (now - t) (p * (now - t))
          (Sampled-before v) reach (omega arith) (v.ordered (suc n) (omega arith) (omega arith)) pos
          (omega (arith, parts)) (omega arith))

  average_documented :
      (n : ℕ)
      → counter_of s ≡ suc n
      → Sampled documented api s c price_of time_of (suc n)
      → time_of 1 ≤ start
      → time_of (suc n) ≤ api.seconds env.time
      → price_sum price_of time_of (suc n) start interval < 2 ^ 128
      → calc_reserve_twap documented api s env interval
        ≡ ok (price_sum price_of time_of (suc n) start interval / interval)
  average_documented zero count v reach past room = average-old zero count v reach
  average_documented (suc n) count v reach past room =
      elim (Bool-cases (leb (time_of (suc (suc n))) start)) [
        | inl le ↦ average-old (suc n) count v (leb→le (time_of (suc (suc n))) start le)
        | inr gt ↦ average-new n count v reach (ground arith) past room
      ]

module _ (u : Uint128) (laws : IsUint128 u) (api : Api) (s : Storage) (env : Env) {c : Config}
    (ec : s.config ≡ some c) (price_of time_of : ℕ → ℕ) (n interval : ℕ)
    (count : counter_of s ≡ suc n) where
  -- If the snapshots have prices and seconds that do not fall, the first of them is no later
  -- than the start of a positive interval that ends now, the last no later than now, and the sum
  -- fits 128 bits, then query_twap_price succeeds with the sum of the price at each second of
  -- the interval, over its length.
  pub query_twap_price-price_sum :
      Sampled u api s c price_of time_of (suc n)
      → 0 < interval
      → interval ≤ api.seconds env.time
      → api.seconds env.time < 2 ^ 64
      → time_of 1 ≤ api.seconds env.time - interval
      → time_of (suc n) ≤ api.seconds env.time
      → price_sum price_of time_of (suc n) (api.seconds env.time - interval) interval < 2 ^ 128
      → query_twap_price u api s env interval
        ≡ ok (
            price_sum price_of time_of (suc n) (api.seconds env.time - interval) interval
            / interval)
  unfolding query_twap_price
  query_twap_price-price_sum = rw (eq-documented u laws) λ v pos h small reach past room.
      average_documented api s env ec price_of time_of interval pos h small n count v reach past
        room
