-- ===== src/Pricefeed/Entries.antt =====
-- store_each of handle.rs against the entries of Log.
use mathlib.Core.List.{append_assoc}
use mrgnd_perpetuals.Base.{
  ℕ, suc, ◌≡◌, ◌≢◌, refl, sym, ap, ◌∙◌, String, Option, none, some, List, [], ◌∷◌, ◌++◌, ok, err,
  panic, ◌>>=◌, arith,
}
use mrgnd_perpetuals.Cosmwasm.{StdResult, Api}
use mrgnd_perpetuals.Pricefeed.State.{Storage, length, store_price_data}
use mrgnd_perpetuals.Pricefeed.Handle.{store_each}
use mrgnd_perpetuals.Pricefeed.Rounds.{
  rounds, extended, next_round, rounds-extended_self, rounds-extended_ne, store_price_data-extended,
}
use mrgnd_perpetuals.Pricefeed.Log.{Entry, value, entries, numbered}

pub length-numbered : (es : List Entry) → length (numbered es) ≡ suc (length es)
length-numbered [] = refl
length-numbered (e ∷ es) = ap suc (length-numbered es)

-- Entries that are stored ahead of the log of a key, and of no other.
abbrev pub Ahead : Storage → String → List Entry → List Entry → Storage → Type 0
Ahead s key log es s' =
    (s'.config ≡ s.config)
    × (rounds s' key ≡ numbered (es ++ log))
    × ((other : String) → other ≢ key → rounds s' other ≡ rounds s other)

-- The entries that are read are stored; if they cannot be read, there is no storage.
abbrev pub Stores : Storage → String → List Entry → Option (List Entry) → StdResult Storage → Type 0
Stores s key log none m = (s' : Storage) → m ≢ ok s'
Stores s key log (some es) m = (s' : Storage) × (m ≡ ok s') × Ahead s key log es s'

-- One round ahead.
extended-Ahead :
    (s : Storage) (key : String) (log : List Entry) (price time : ℕ)
    → rounds s key ≡ numbered log
    → Ahead s key log ((price, time) ∷ []) (extended s key (next_round s key price time))
extended-Ahead s key log price time e = (
  refl,
  rw (rounds-extended_self s key (next_round s key price time), e, length-numbered log) refl,
  λ other distinct. rounds-extended_ne s key other (next_round s key price time) distinct,
)

Ahead-Ahead :
    (s s₁ s₂ : Storage) (key : String) (log es : List Entry) (e : Entry)
    → Ahead s key log (e ∷ []) s₁
    → Ahead s₁ key (e ∷ log) es s₂
    → Ahead s key log (es ++ (e ∷ [])) s₂
Ahead-Ahead s s₁ s₂ key log es e (config₁, here₁, others₁) (config₂, here₂, others₂) = (
  config₂ ∙ config₁,
  here₂ ∙ ap numbered (sym (append_assoc es (e ∷ []) log)),
  λ other distinct. others₂ other distinct ∙ others₁ other distinct,
)

Stores-first :
    (s : Storage) (key : String) (log : List Entry) (price : ℕ) (o : StdResult ℕ)
    (rest : Option (List Entry)) (k : Storage → StdResult Storage)
    → rounds s key ≡ numbered log
    → ((time : ℕ)
        → let s₁ = extended s key (next_round s key price time) in
          Stores s₁ key ((price, time) ∷ log) rest (k s₁))
    → Stores s key log
        (elim (value o) [
          | none ↦ none
          | some time ↦ elim rest [ none ↦ none | some es ↦ some (es ++ ((price, time) ∷ [])) ]
        ])
        ((o >>= λ time. ok (extended s key (next_round s key price time))) >>= k)
Stores-first s key log price (ok time) none k e more = more time
Stores-first s key log price (ok time) (some es) k e more =
    let (s₂, same, ahead) = more time in
    (
      s₂,
      same,
      Ahead-Ahead s (extended s key (next_round s key price time)) s₂ key log es (price, time)
          (extended-Ahead s key log price time e) ahead,
    )
Stores-first s key log price (err why) rest k e more = λ s' h. cc
Stores-first s key log price panic rest k e more = λ s' h. cc

no_later :
    (price : ℕ) (first : Option ℕ) (rest : Option (List Entry))
    → rest ≡ none
    → ◌≡◌ {A = Option (List Entry)}
        (elim first [
          | none ↦ none
          | some time ↦ elim rest [ none ↦ none | some es ↦ some (es ++ ((price, time) ∷ [])) ]
        ])
        none
no_later price none rest e = refl
no_later price (some time) none e = refl
no_later price (some time) (some es) e = cc

module _ (api : Api) (key : String) where
  pub store_each-Stores :
      (prices timestamps : List ℕ) (s : Storage) (log : List Entry)
      → length prices ≡ length timestamps
      → rounds s key ≡ numbered log
      → Stores s key log (entries api prices timestamps) (store_each api s key prices timestamps)
  unfolding store_each entries
  store_each-Stores [] [] s log same e = (s, refl, (refl, e, λ other distinct. refl))
  store_each-Stores [] (t ∷ ts) s log same e = absurd (omega arith)
  store_each-Stores (p ∷ ps) [] s log same e = absurd (omega arith)
  store_each-Stores (p ∷ ps) (t ∷ ts) s log same e = rw (store_price_data-extended api s key p t) (
      Stores-first s key log p (api.from_seconds t) (entries api ps ts)
        (λ s'. store_each api s' key ps ts) e
        λ time.
          let s₁ = extended s key (next_round s key p time) in
          store_each-Stores ps ts s₁ ((p, time) ∷ log) (omega (arith, same))
            (extended-Ahead s key log p time e).1)

  pub store_each-one :
      (s : Storage) (price timestamp : ℕ)
      → store_each api s key (price ∷ []) (timestamp ∷ [])
        ≡ store_price_data api s key price timestamp
  unfolding store_each
  store_each-one s price timestamp =
      elim (store_price_data api s key price timestamp) as (λ o. (o >>= λ s'. ok s') ≡ o) [
        | ok s' ↦ refl
        | err e ↦ refl
        | panic ↦ refl
      ]

  pub entries-length :
      (prices timestamps : List ℕ)
      → length prices ≢ length timestamps
      → entries api prices timestamps ≡ none
  unfolding entries
  entries-length [] [] differ = absurd (differ refl)
  entries-length [] (t ∷ ts) differ = refl
  entries-length (p ∷ ps) [] differ = refl
  entries-length (p ∷ ps) (t ∷ ts) differ =
      no_later p (value (api.from_seconds t)) (entries api ps ts)
        (entries-length ps ts (λ same. differ (ap suc same)))
