-- ===== src/Twap.antt =====
-- What a time-weighted average price is, said without the loops of the two contracts that compute
-- it: samples numbered from 1, each of which sets the price from its second on.
use native.Mathlib.Nat.{add-zero, add-suc, mul_comm, le-div_iff_mul-le, div-le_of_le-mul}
use mrgnd_perpetuals.Base.{
  ℕ, zero, suc, ◌+◌, ◌-◌, ◌*◌, ◌/◌, ◌≤◌, ◌<◌, ◌≡◌, refl, arith, leb, if◌then◌else◌,
}

module _ (price_of time_of : ℕ → ℕ) where
  -- The price at the second `t` by the first `n` samples; 0 before the first of them.
  unfoldable pub price_at : ℕ → ℕ → ℕ
  price_at zero t = 0
  price_at (suc n) t = if leb (time_of (suc n)) t then price_of (suc n) else price_at n t

  -- The sum of the prices at the seconds `base`, …, `base + len - 1`.
  unfoldable pub price_sum : ℕ → ℕ → ℕ → ℕ
  price_sum n base zero = 0
  price_sum n base (suc len) = price_sum n base len + price_at n (base + len)

  -- A sample that is old enough prices the whole interval.
  pub price_sum-old :
      (n base len : ℕ)
      → time_of (suc n) ≤ base
      → price_sum (suc n) base len ≡ price_of (suc n) * len
  unfolding price_sum price_at
  price_sum-old n base zero h = omega arith
  price_sum-old n base (suc len) h = ground (arith, price_sum-old n base len h)

  -- Before its second a sample does not count.
  pub price_sum-new :
      (n base len : ℕ)
      → base + len ≤ time_of (suc n)
      → price_sum (suc n) base len ≡ price_sum n base len
  unfolding price_sum price_at
  price_sum-new n base zero h = refl
  price_sum-new n base (suc len) h = ground (arith, price_sum-new n base len (omega arith))

  -- A sample inside the interval prices the seconds from its own on.
  price_at-own : (n t : ℕ) → time_of (suc n) ≤ t → price_at (suc n) t ≡ price_of (suc n)
  unfolding price_at
  price_at-own n t h = ground arith

  pub price_sum-split :
      (n base before len : ℕ)
      → base + before ≡ time_of (suc n)
      → price_sum (suc n) base (before + len) ≡ price_sum n base before + price_of (suc n) * len
  unfolding price_sum
  price_sum-split n base before zero h =
      rw add-zero (omega (arith, price_sum-new n base before (omega arith)))
  price_sum-split n base before (suc len) h =
      rw add-suc (
        ground (arith, price_sum-split n base before len h, price_at-own n (base + (before + len))))

  pub price_sum-inside :
      (n base end : ℕ)
      → base ≤ time_of (suc n)
      → time_of (suc n) ≤ end
      → price_sum (suc n) base (end - base)
        ≡ price_sum n base (time_of (suc n) - base) + price_of (suc n) * (end - time_of (suc n))
  price_sum-inside n base end h k =
      let t = time_of (suc n) in
      let parts : end - base ≡ (t - base) + (end - t) = omega arith in
      rw parts (price_sum-split n base (t - base) (end - t) (omega arith))

  -- The prices of the first `n` samples lie between `lo` and `hi`.
  abbrev pub Within : ℕ → ℕ → ℕ → Type 0
  Within lo hi n = (i : ℕ) → 0 < i → i ≤ n → (lo ≤ price_of i) × (price_of i ≤ hi)

  price_at-Within :
      (lo hi n t : ℕ)
      → Within lo hi (suc n)
      → time_of 1 ≤ t
      → (lo ≤ price_at (suc n) t) × (price_at (suc n) t ≤ hi)
  unfolding price_at
  price_at-Within lo hi zero t h old = ground (arith, h 1)
  price_at-Within lo hi (suc n) t h old =
      ground (
        arith,
        h (suc (suc n)),
        price_at-Within lo hi n t (λ i pos below. h i pos (omega arith)) old,
      )

  price_sum-Within :
      (lo hi n base len : ℕ)
      → Within lo hi (suc n)
      → time_of 1 ≤ base
      → (lo * len ≤ price_sum (suc n) base len) × (price_sum (suc n) base len ≤ hi * len)
  unfolding price_sum
  price_sum-Within lo hi n base zero h old = (omega arith, omega arith)
  price_sum-Within lo hi n base (suc len) h old =
      let (low, high) = price_sum-Within lo hi n base len h old in
      let (low', high') = price_at-Within lo hi n (base + len) h (omega arith) in
      (omega arith, omega arith)

  -- An average lies between the least and the greatest price of the samples.
  pub average-Within :
      (lo hi n base len : ℕ)
      → 0 < n
      → 0 < len
      → Within lo hi n
      → time_of 1 ≤ base
      → (lo ≤ price_sum n base len / len) × (price_sum n base len / len ≤ hi)
  average-Within lo hi zero base len pos some_time h old = elim pos [ ]
  average-Within lo hi (suc n) base len pos some_time h old =
      let (low, high) = price_sum-Within lo hi n base len h old in
      ((le-div_iff_mul-le some_time).1 low, div-le_of_le-mul len (rw (mul_comm len hi) high))
