-- ===== src/Pricefeed/Twap.antt =====
-- query_get_twap_price of query.rs against the average that Twap defines.
use native.Mathlib.Nat.{mul-div_left}
use mrgnd_perpetuals.Base.{
  ℕ, zero, suc, ◌+◌, ◌-◌, ◌*◌, ◌/◌, ◌≤◌, ◌<◌, ◌^◌, ◌≡◌, ◌≢◌, refl, String, List, [], ◌∷◌, ok, panic,
  arith, some, Bool-cases, inl, inr, leb, leb→le, le→leb, lt→ltb, ne→==,
}
use mrgnd_perpetuals.Cosmwasm.{Api, Env, Uint128, IsUint128, eq-documented, documented}
use mrgnd_perpetuals.Pricefeed.State.{Storage, PriceData, last}
use mrgnd_perpetuals.Pricefeed.Query.{twap_loop, query_get_twap_price}
use mrgnd_perpetuals.Twap.{price_sum, price_sum-old, price_sum-inside}
use mrgnd_perpetuals.Pricefeed.TwapSteps.{Sampled, loop-old, loop-new, loop-stale}

module _ (api : Api) (price_of time_of : ℕ → ℕ) (interval base : ℕ) (pos : 0 < interval)
    (reach : time_of 1 ≤ base) where
  loop-reaches :
      (n : ℕ) (x : PriceData) (xs : List PriceData) (cumulative w : ℕ)
      → Sampled api price_of time_of (suc (suc n)) (x ∷ xs)
      → base ≤ time_of (suc (suc n))
      → w + price_sum price_of time_of (suc n) base (time_of (suc (suc n)) - base) < 2 ^ 128
      → cumulative + (time_of (suc (suc n)) - base) < 2 ^ 128
      → twap_loop documented api interval base (x ∷ xs) (time_of (suc (suc n))) cumulative w
        ≡ ok (
            (w + price_sum price_of time_of (suc n) base (time_of (suc (suc n)) - base)) / interval)
  loop-reaches n x [] cumulative w v before room room' = absurd v.4
  loop-reaches zero x (y ∷ ys) cumulative w (round, _, _, _, (_, price, time, _, _)) before room
        room' =
      let old = price_sum-old price_of time_of zero base (time_of 2 - base) reach in
      rw old (
        loop-old api interval base x y (y ∷ ys) (omega arith) (time_of 2) cumulative w (price_of 1)
          (time_of 1) price refl time reach before pos (rw old at room))
  loop-reaches (suc n) x (y ∷ ys) cumulative w (round, _, _, rising, next) before room room' =
      let (_, price, time, _, _) = next in
      let p = price_of (suc (suc n)) in
      let t = time_of (suc (suc n)) in
      let end = time_of (suc (suc (suc n))) in
      let later : x.round_id ≢ 1 = omega arith in
      elim (Bool-cases (leb t base)) [
        | inl le ↦
            let is_old : t ≤ base = leb→le t base le in
            let old = price_sum-old price_of time_of (suc n) base (end - base) is_old in
            rw old (
              loop-old api interval base x y (y ∷ ys) later end cumulative w p t price refl time
                is_old before pos (rw old at room))
        | inr gt ↦
            let is_new : base < t = ground arith in
            let past : t ≤ end = rising (omega arith) in
            let new = price_sum-inside price_of time_of (suc n) base end (omega arith) past in
            let rest = price_sum price_of time_of (suc n) base (t - base) in
            let sum : w + (rest + p * (end - t)) ≡ w + p * (end - t) + rest = omega arith in
            rw
              (
                new,
                sum,
                loop-new api interval base x y (y ∷ ys) later end cumulative w p t price refl time
                    is_new past (omega (arith, new)) (omega arith),
              )
              (loop-reaches n y ys (cumulative + (end - t)) (w + p * (end - t)) next (omega arith)
                (omega (arith, new)) (omega arith))
      ]

-- One round after that of zeros: its price is the average over the time since then.
loop-first :
    (api : Api) (interval base t p : ℕ) (x : PriceData) (xs : List PriceData) (now : ℕ)
    → x.round_id ≡ 1
    → t < now
    → twap_loop documented api interval base (x ∷ xs) t (now - t) (p * (now - t)) ≡ ok p
unfolding twap_loop
loop-first api interval base t p x xs now first past =
    let pos : 0 < now - t = omega arith in rw first (ground (arith, mul-div_left p pos))

module _ (api : Api) (s : Storage) (env : Env) (key : String) (interval : ℕ) (x : PriceData)
    (xs : List PriceData) (stored : s.prices key ≡ some (x ∷ xs)) (pos : 0 < interval)
    (h : interval ≤ api.seconds env.time) where
  abbrev start : ℕ
  start = api.seconds env.time - interval

  query-twap_loop :
      (p t : ℕ)
      → x.price ≡ p
      → api.seconds x.timestamp ≡ t
      → t ≤ api.seconds env.time
      → p * (api.seconds env.time - t) < 2 ^ 128
      → query_get_twap_price documented api s env key interval
        ≡ twap_loop documented api interval start
            (x ∷ xs)
            t
            (api.seconds env.time - t)
            (p * (api.seconds env.time - t))
  unfolding query_get_twap_price
  query-twap_loop p t price time past room = rw (
    ne→== interval 0 (omega arith),
    le→leb interval (api.seconds env.time) h,
    stored,
    price,
    time,
    le→leb t (api.seconds env.time) past,
    lt→ltb (p * (api.seconds env.time - t)) (2 ^ 128) room,
  )

  module _ (price_of time_of : ℕ → ℕ) where
    average_documented :
        (n : ℕ)
        → Sampled api price_of time_of (suc n) (x ∷ xs)
        → api.seconds env.time < 2 ^ 64
        → time_of 1 ≤ start
        → start ≤ time_of (suc n)
        → time_of (suc n) ≤ api.seconds env.time
        → price_sum price_of time_of (suc n) start interval < 2 ^ 128
        → query_get_twap_price documented api s env key interval
          ≡ ok (price_sum price_of time_of (suc n) start interval / interval)
    average_documented zero (round, price, time, _, _) small reach fresh past room =
        let whole = price_sum-old price_of time_of zero start interval reach in
        let same : api.seconds env.time - time_of 1 ≡ interval = omega arith in
        let past' : time_of 1 < api.seconds env.time = omega arith in
        rw
          (
            whole,
            mul-div_left (price_of 1) pos,
            query-twap_loop (price_of 1) (time_of 1) price time past
                (rw same (omega (arith, whole))),
          )
          (loop-first api interval start (time_of 1) (price_of 1) x xs (api.seconds env.time) round
            past')
    average_documented (suc n) v small reach fresh past room =
        let (_, price, time, _, _) = v in
        let now = api.seconds env.time in
        let p = price_of (suc (suc n)) in
        let t = time_of (suc (suc n)) in
        let rest = price_sum price_of time_of (suc n) start (t - start) in
        let whole : now - start ≡ interval = omega arith in
        let parts : price_sum price_of time_of (suc (suc n)) start interval ≡ p * (now - t) + rest =
          omega
            (arith, rw whole at (price_sum-inside price_of time_of (suc n) start now fresh past)) in
        rw (parts, query-twap_loop p t price time past (omega (arith, parts)))
          (loop-reaches api price_of time_of interval start pos reach n x xs (now - t)
            (p * (now - t)) v fresh (omega (arith, parts)) (omega arith))

module _ (u : Uint128) (laws : IsUint128 u) (api : Api) (s : Storage) (env : Env) (key : String)
    (interval : ℕ) (x : PriceData) (xs : List PriceData) (stored : s.prices key ≡ some (x ∷ xs))
    (pos : 0 < interval) (h : interval ≤ api.seconds env.time) where
  -- If the rounds of a key have prices and seconds that do not fall, the first is no later than
  -- the start of a positive interval that ends now, the last is between that start and now, and
  -- the sum fits 128 bits, then query_get_twap_price succeeds with the sum of the price at each
  -- second of the interval, over its length.
  pub query_get_twap_price-price_sum :
      (price_of time_of : ℕ → ℕ) (n : ℕ)
      → Sampled api price_of time_of (suc n) (x ∷ xs)
      → api.seconds env.time < 2 ^ 64
      → time_of 1 ≤ api.seconds env.time - interval
      → api.seconds env.time - interval ≤ time_of (suc n)
      → time_of (suc n) ≤ api.seconds env.time
      → price_sum price_of time_of (suc n) (api.seconds env.time - interval) interval < 2 ^ 128
      → query_get_twap_price u api s env key interval
        ≡ ok (
            price_sum price_of time_of (suc n) (api.seconds env.time - interval) interval
            / interval)
  query_get_twap_price-price_sum =
      rw (eq-documented u laws) λ price_of time_of n v small reach fresh past room.
        average_documented api s env key interval x xs stored pos h price_of time_of n v small reach
          fresh past room

  -- If the last two rounds of a key were both before the start of a positive interval that ends
  -- now, the earlier one at the start at the latest, the last one is not round 1, and its price
  -- over the time since fits 128 bits, then query_get_twap_price panics.
  pub query_get_twap_price-stale :
      (y : PriceData)
      → x.round_id ≢ 1
      → last xs ≡ some y
      → api.seconds y.timestamp ≤ api.seconds env.time - interval
      → api.seconds x.timestamp < api.seconds env.time - interval
      → x.price * (api.seconds env.time - api.seconds x.timestamp) < 2 ^ 128
      → query_get_twap_price u api s env key interval ≡ panic
  query_get_twap_price-stale = rw (eq-documented u laws) λ y later before old stale room.
      let now = api.seconds env.time in
      let t = api.seconds x.timestamp in
      rw
        (query-twap_loop api s env key interval x xs stored pos h x.price t refl refl (omega arith)
          room)
        (loop-stale api interval (now - interval) x y xs later t (now - t) (x.price * (now - t))
          y.price (api.seconds y.timestamp) refl before refl old stale)
