-- ===== src/Pricefeed/Previous.antt =====
-- Reading rounds back: query_get_price and query_get_previous_price of query.rs.
use mrgnd_perpetuals.Base.{
  ℕ, zero, suc, ◌+◌, ◌≤◌, ◌<◌, ◌≡◌, ◌≢◌, refl, String, some, List, [], ◌∷◌, ok, err, arith,
  Bool-cases, inl, inr, ◌>>=◌, ◌>>◌, guard, unwrap_some, sym, ap, ◌∙◌, ◌⊎◌, leb, leb→le, le→leb,
}
use mrgnd_perpetuals.Cosmwasm.{Api, MessageInfo, StdResult, Response, generic_err}
use mrgnd_perpetuals.Perp.Messages.{Payload}
use mrgnd_perpetuals.Pricefeed.State.{Storage, PriceData, length, last, store_price_data}
use mrgnd_perpetuals.Pricefeed.Handle.{append_price}
use mrgnd_perpetuals.Pricefeed.Query.{query_get_price, query_get_previous_price, pop_rounds}
use mrgnd_perpetuals.Pricefeed.Rounds.{
  IsNumbered, HasRounds, rounds, next_round, rounds-extended_self, rounds-extended_ne,
  store_price_data_inv, owned_inv, stored, stored_inv, append_price-owned,
}

round_id-length :
    (x : PriceData) (xs : List PriceData) → IsNumbered (x ∷ xs) → x.round_id ≡ length xs
round_id-length x [] v = ap (λ (t : PriceData). t.round_id) v
round_id-length x (y ∷ ys) v = v.0

-- Going back `k` rounds from the last finds the round that many numbers below it.
pop_rounds-IsNumbered :
    (k : ℕ) (x : PriceData) (xs : List PriceData)
    → IsNumbered (x ∷ xs)
    → k ≤ x.round_id
    → (p : PriceData) × (last (pop_rounds k (x ∷ xs)) ≡ some p) × (p.round_id + k ≡ x.round_id)
unfolding pop_rounds
pop_rounds-IsNumbered zero x xs v h = (x, refl, omega arith)
pop_rounds-IsNumbered (suc k) x [] v h = absurd (ground arith)
pop_rounds-IsNumbered (suc k) x (y ∷ ys) (first, v) h =
    let one = round_id-length y ys v in
    let (p, e, sum) = pop_rounds-IsNumbered k y ys v (omega (arith, one)) in
    (p, e, omega (arith, one))

abbrev pub previous_of : List PriceData → ℕ → StdResult PriceData
previous_of xs k = do
  latest ← unwrap_some (last xs)
  guard (leb k latest.round_id) (generic_err "Not enough history")
  unwrap_some (last (pop_rounds k xs))

-- The last round, and the one `k` rounds before it as far as there is one.
abbrev pub Counts : StdResult PriceData → ℕ → StdResult PriceData → Type 0
Counts get k previous =
    (latest : PriceData) × (get ≡ ok latest)
    × (((k ≤ latest.round_id)
          × ((p : PriceData) × (previous ≡ ok p) × (p.round_id + k ≡ latest.round_id)))
        ⊎ ((latest.round_id < k) × (previous ≡ err (generic_err "Not enough history"))))

previous_of-Counts :
    (xs : List PriceData) (k : ℕ)
    → IsNumbered xs
    → Counts (unwrap_some (last xs)) k (previous_of xs k)
previous_of-Counts [] k v = absurd v
previous_of-Counts (x ∷ xs) k v = (
  x,
  refl,
  elim (Bool-cases (leb k x.round_id)) [
    | inl h ↦
        let (p, e, sum) = pop_rounds-IsNumbered k x xs v (leb→le k x.round_id h) in
        inl (leb→le k x.round_id h, (p, rw (h, e), sum))
    | inr h ↦ inr (ground arith, rw h)
  ],
)

-- If the rounds of every key are numbered without a gap, then query_get_price succeeds with a
-- latest round, and query_get_previous_price finds the round whose number is smaller by `k`, or
-- answers that there is not enough history, and does so exactly if `k` exceeds the latest
-- number.
pub query_get_previous_price-Counts :
    (s : Storage) (key : String) (k : ℕ)
    → HasRounds s
    → Counts (query_get_price s key) k (query_get_previous_price s key k)
unfolding query_get_price query_get_previous_price
query_get_previous_price-Counts s key k v = previous_of-Counts (rounds s key) k (v key)

some_round : (xs : List PriceData) → IsNumbered xs → 0 < length xs
some_round [] v = absurd v
some_round (x ∷ xs) v = omega arith

one_back :
    (s : Storage) (key : String) (x : PriceData)
    → x.round_id ≡ length (rounds s key)
    → IsNumbered (rounds s key)
    → previous_of (x ∷ rounds s key) 1 ≡ unwrap_some (last (rounds s key))
unfolding pop_rounds
one_back s key x e v = rw (le→leb 1 x.round_id (omega (arith, some_round (rounds s key) v)))

-- If the rounds of every key are numbered without a gap, then after a successful append_price
-- query_get_price gives the new price at the time that was converted, under the next number,
-- query_get_previous_price with 1 gives what query_get_price gave before, and query_get_price of
-- another key is as it was.
pub append_price-query_get_price :
    (api : Api) (s : Storage) (info : MessageInfo) (key other : String) (price timestamp : ℕ)
    {s' : Storage} {r : Response Payload}
    → HasRounds s
    → other ≢ key
    → append_price api s info key price timestamp ≡ ok (s', r)
    → (time : ℕ) × (api.from_seconds timestamp ≡ ok time)
      × (query_get_price s' key ≡ ok (next_round s key price time))
      × (query_get_previous_price s' key 1 ≡ query_get_price s key)
      × (query_get_price s' other ≡ query_get_price s other)
unfolding query_get_price query_get_previous_price
append_price-query_get_price api s info key other price timestamp {s'} {r} v distinct h =
    let (c, e, same, k) =
      owned_inv s.config info (stored (store_price_data api s key price timestamp)) {p = (s', r)}
        (sym (append_price-owned api s info key price timestamp) ∙ h) in
    let (time, read, new) = store_price_data_inv api s key price timestamp (stored_inv _ k) in
    let x = next_round s key price time in
    (
      time,
      read,
      rw (new, rounds-extended_self s key x),
      rw (new, rounds-extended_self s key x) (one_back s key x refl (v key)),
      rw (new, rounds-extended_ne s key other x distinct),
    )
