-- ===== src/Engine/Balance.antt =====
-- query_trader_balance_with_funding_payment of query.rs.
use mrgnd_perpetuals.Base.{
  ℕ, ◌+◌, ◌^◌, ◌<◌, ◌≡◌, ap, ◌∙◌, String, some, List, [], ◌∷◌, ok, ◌>>=◌, arith, lt→ltb,
}
use mrgnd_perpetuals.Cosmwasm.{Uint128, IsUint128, eq-documented, documented, Api}
use mrgnd_perpetuals.Engine.State.{Imports, Storage, Position, VammList, position_key, load}
use mrgnd_perpetuals.Engine.Query.{
  add_margins, query_position, query_trader_balance_with_funding_payment,
}

-- The trader has these positions in the vAMMs of the list, one in each.
abbrev pub Holds : Api → Imports → Storage → String → List String → List Position → Type 0
Holds api host s trader [] [] = Unit {0}
Holds api host s trader [] (p ∷ ps) = ⊥
Holds api host s trader (v ∷ vs) [] = ⊥
Holds api host s trader (v ∷ vs) (p ∷ ps) =
    ((a : String) × (t : String) × (api.addr_validate v ≡ ok a)
      × (api.addr_validate trader ≡ ok t)
      × (s.position (position_key host a t) ≡ some p))
    × Holds api host s trader vs ps

abbrev pub total_margin : List Position → ℕ
total_margin [] = 0
total_margin (p ∷ ps) = p.margin + total_margin ps

add_margins-total_margin :
    (api : Api) (host : Imports) (s : Storage) (trader : String) (vs : List String)
    (ps : List Position) (m : ℕ)
    → Holds api host s trader vs ps
    → m + total_margin ps < 2 ^ 128
    → add_margins documented api host s trader vs m ≡ ok (m + total_margin ps)
unfolding add_margins query_position
add_margins-total_margin api host s trader [] [] m v room = ap ok (omega arith)
add_margins-total_margin api host s trader [] (p ∷ ps) m v room = absurd v
add_margins-total_margin api host s trader (w ∷ vs) [] m v room = absurd v
add_margins-total_margin api host s trader (w ∷ vs) (p ∷ ps) m ((a, t, ea, et, stored), rest) room =
    rw (ea, et, stored, lt→ltb (m + p.margin) (2 ^ 128) (omega arith))
      (add_margins-total_margin api host s trader vs ps (m + p.margin) rest (omega arith)
        ∙ ap ok (omega arith))

balance-add_margins :
    (u : Uint128) (api : Api) (host : Imports) (s : Storage) (trader : String) {list : VammList}
    → s.vamm_list ≡ some list
    → query_trader_balance_with_funding_payment u api host s trader
      ≡ add_margins u api host s trader list.vamm 0
unfolding query_trader_balance_with_funding_payment
balance-add_margins u api host s trader el =
    ap (λ vamms. load vamms >>= λ list. add_margins u api host s trader list.vamm 0) el

-- If the trader holds a position in every registered vAMM and the sum of their margins fits 128
-- bits, query_trader_balance_with_funding_payment succeeds with that sum.
pub query_trader_balance_with_funding_payment-total_margin :
    (u : Uint128)
    → IsUint128 u
    → (api : Api) (host : Imports) (s : Storage) (trader : String) {list : VammList}
      (ps : List Position)
    → s.vamm_list ≡ some list
    → Holds api host s trader list.vamm ps
    → total_margin ps < 2 ^ 128
    → query_trader_balance_with_funding_payment u api host s trader ≡ ok (total_margin ps)
query_trader_balance_with_funding_payment-total_margin u laws api host s trader {list} ps el v
      room =
    rw (eq-documented u laws) (
      balance-add_margins documented api host s trader el
      ∙ add_margins-total_margin api host s trader list.vamm ps 0 v (omega arith)
      ∙ ap ok (omega arith))
