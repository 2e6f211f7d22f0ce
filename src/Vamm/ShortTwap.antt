-- ===== src/Vamm/ShortTwap.antt =====
-- calc_reserve_twap of query.rs where the first snapshot is inside the interval.
use native.Mathlib.Nat.{mul-div_left}
use mrgnd_perpetuals.Base.{
  inl, inr, ℕ, zero, suc, ◌+◌, ◌-◌, ◌*◌, ◌/◌, ◌≤◌, ◌<◌, ◌^◌, ◌≡◌, ok, arith, some,
}
use mrgnd_perpetuals.Cosmwasm.{Api, Env, Uint128, IsUint128, eq-documented, documented}
use mrgnd_perpetuals.Vamm.State.{Storage, Config, counter_of}
use mrgnd_perpetuals.Vamm.Query.{twap_loop, calc_reserve_twap, query_twap_price}
use mrgnd_perpetuals.Vamm.TwapSteps.{Sampled, Sampled-before, loop-new, calc-last, calc-loop}
use mrgnd_perpetuals.Twap.{price_sum, price_sum-old, price_sum-inside}

module _ (api : Api) (s : Storage) (c : Config) (price_of time_of : ℕ → ℕ) where
  -- The seconds do not fall from the first snapshot on.
  first-le :
      (n : ℕ) → Sampled documented api s c price_of time_of (suc n) → time_of 1 ≤ time_of (suc n)
  first-le zero v = omega arith
  first-le (suc n) v =
      omega (arith, first-le n (Sampled-before v), v.ordered (suc n) (omega arith) (omega arith))

  loop-exhausts :
      (interval base prev period w : ℕ)
      → 0 < period
      → twap_loop documented api s c zero interval base prev period w ≡ ok (w / period)
  unfolding twap_loop
  loop-exhausts interval base prev period w pos = ground arith

  -- The loop adds up the prices of the seconds between the first snapshot and `prev`.
  loop-short :
      (n interval base prev period w : ℕ)
      → Sampled documented api s c price_of time_of (suc n)
      → base < time_of 1
      → time_of (suc n) ≤ prev
      → 0 < period + (prev - time_of 1)
      → w + price_sum price_of time_of (suc n) (time_of 1) (prev - time_of 1) < 2 ^ 128
      → period + (prev - time_of 1) < 2 ^ 128
      → twap_loop documented api s c (suc n) interval base prev period w
        ≡ ok (
            (w + price_sum price_of time_of (suc n) (time_of 1) (prev - time_of 1))
            / (period + (prev - time_of 1)))
  loop-short zero interval base prev period w v short last pos room room' =
      let t = time_of 1 in
      let at = v.stored 1 (omega arith) (omega arith) in
      let sum = price_sum-old price_of time_of zero t (prev - t) (omega arith) in
      rw
        (
          sum,
          loop-new api s c zero (price_of 1) t at interval base prev period w short last
              (rw sum at room) room',
        )
        (loop-exhausts interval base t (period + (prev - t)) (w + price_of 1 * (prev - t)) pos)
  loop-short (suc n) interval base prev period w v short last pos room room' =
      let first = time_of 1 in
      let p = price_of (suc (suc n)) in
      let t = time_of (suc (suc n)) in
      let at = v.stored (suc (suc n)) (omega arith) (omega arith) in
      let later : first ≤ t = first-le (suc n) v in
      let sum = price_sum-inside price_of time_of (suc n) first prev later last in
      let rest = price_sum price_of time_of (suc n) first (t - first) in
      let order : w + (rest + p * (prev - t)) ≡ w + p * (prev - t) + rest = omega arith in
      let spans : period + (prev - first) ≡ period + (prev - t) + (t - first) = omega arith in
      rw
        (
          sum,
          order,
          spans,
          loop-new api s c (suc n) p t at interval base prev period w (omega arith) last
              (omega (arith, sum)) (omega arith),
        )
        (loop-short n interval base t (period + (prev - t)) (w + p * (prev - t)) (Sampled-before v)
          short (v.ordered (suc n) (omega arith) (omega arith)) (omega arith) (omega (arith, sum))
          (omega arith))

module _ (api : Api) (s : Storage) (env : Env) {c : Config} (ec : s.config ≡ some c)
    (price_of time_of : ℕ → ℕ) (interval : ℕ) (h : interval ≤ api.seconds env.time)
    (small : api.seconds env.time < 2 ^ 64) (short : api.seconds env.time - interval < time_of 1)
    (lasts : time_of 1 < api.seconds env.time) where
  abbrev since_first : ℕ
  since_first = api.seconds env.time - time_of 1

  short_documented :
      (n : ℕ)
      → counter_of s ≡ suc n
      → Sampled documented api s c price_of time_of (suc n)
      → time_of (suc n) ≤ api.seconds env.time
      → price_sum price_of time_of (suc n) (time_of 1) since_first < 2 ^ 128
      → calc_reserve_twap documented api s env interval
        ≡ ok (price_sum price_of time_of (suc n) (time_of 1) since_first / since_first)
  short_documented zero count v past room =
      let some_time : 0 < since_first = omega arith in
      rw
        (
          price_sum-old price_of time_of zero (time_of 1) since_first (omega arith),
          mul-div_left (price_of 1) some_time,
        )
        (calc-last api s env ec zero (price_of 1) (time_of 1) count
          (v.stored 1 (omega arith) (omega arith)) interval h (inr (inl (omega arith))))
  short_documented (suc n) count v past room =
      let now = api.seconds env.time in
      let first = time_of 1 in
      let p = price_of (suc (suc n)) in
      let t = time_of (suc (suc n)) in
      let later : first ≤ t = first-le api s c price_of time_of (suc n) v in
      let rest = price_sum price_of time_of (suc n) first (t - first) in
      let sum : price_sum price_of time_of (suc (suc n)) first (now - first)
          ≡ p * (now - t) + rest =
        omega (arith, price_sum-inside price_of time_of (suc n) first now later past) in
      let spans : now - first ≡ now - t + (t - first) = omega arith in
      rw
        (
          sum,
          calc-loop api s env ec (suc n) p t count
              (v.stored (suc (suc n)) (omega arith) (omega arith)) interval (omega arith) h
              (omega arith) (omega arith) past (omega (arith, sum)),
        )
        (rw spans (
          loop-short api s c price_of time_of n interval (now - interval) t (now - t)
            (p * (now - t)) (Sampled-before v) short (v.ordered (suc n) (omega arith) (omega arith))
            (omega arith) (omega (arith, sum)) (omega arith)))

module _ (u : Uint128) (laws : IsUint128 u) (api : Api) (s : Storage) (env : Env) {c : Config}
    (ec : s.config ≡ some c) (price_of time_of : ℕ → ℕ) (n interval : ℕ)
    (count : counter_of s ≡ suc n) where
  -- If the snapshots have prices and seconds that do not fall, the first of them is inside the
  -- interval that ends now and before now, the last no later than now, and the sum fits 128
  -- bits, then query_twap_price succeeds with the sum of the price at each second since the
  -- first snapshot, over their number.
  pub query_twap_price-since_first :
      Sampled u api s c price_of time_of (suc n)
      → interval ≤ api.seconds env.time
      → api.seconds env.time < 2 ^ 64
      → api.seconds env.time - interval < time_of 1
      → time_of 1 < api.seconds env.time
      → time_of (suc n) ≤ api.seconds env.time
      → price_sum price_of time_of (suc n) (time_of 1) (api.seconds env.time - time_of 1) < 2 ^ 128
      → query_twap_price u api s env interval
        ≡ ok (
            price_sum price_of time_of (suc n) (time_of 1) (api.seconds env.time - time_of 1)
            / (api.seconds env.time - time_of 1))
  unfolding query_twap_price
  query_twap_price-since_first = rw (eq-documented u laws) λ v h small short lasts past room.
      short_documented api s env ec price_of time_of interval h small short lasts n count v past
        room
