-- ===== src/Pricefeed/Answers.antt =====
-- The price feed from its instantiation on, through any sequence of calls, and what its queries
-- answer by the logs of Log.
use mrgnd_perpetuals.Base.{
  ℕ, zero, suc, ◌≤◌, ◌≡◌, refl, ap, ◌∙◌, String, Bool-cases, inl, inr, none, some, List, [], ◌∷◌,
  ok, err, ok-injective, >>=-eq-ok, if◌then◌else◌, leb, leb→le, u128_pow10, arith,
}
use mrgnd_perpetuals.Cosmwasm.{StdResult, Api, Env, MessageInfo, Response, generic_err}
use mrgnd_perpetuals.Perp.Messages.{Payload}
use mrgnd_perpetuals.Perp.Pricefeed.{ExecuteMsg, InstantiateMsg, ConfigResponse}
use mrgnd_perpetuals.Pricefeed.State.{Storage, PriceData, length, last, default_price}
use mrgnd_perpetuals.Pricefeed.Query.{
  query_config, query_get_price, query_get_previous_price, pop_rounds,
}
use mrgnd_perpetuals.Pricefeed.Contract.{instantiate, execute}
use mrgnd_perpetuals.Pricefeed.Previous.{previous_of}
use mrgnd_perpetuals.Pricefeed.Log.{Entry, Feed, call_feed, numbered}
use mrgnd_perpetuals.Pricefeed.Refines.{Represents, settled, call_feed-Represents}

pub record Call : Type 0 where
  pub env : Env
  pub info : MessageInfo
  pub msg : ExecuteMsg

module _ (api : Api) where
  -- The storage after calls of which those that fail change nothing, and the feed after them.
  unfoldable pub run : Storage → List Call → Storage
  run s [] = s
  run s (call ∷ calls) = run (settled s (execute api s call.env call.info call.msg)) calls

  unfoldable pub run_feed : Feed → List Call → Feed
  run_feed f [] = f
  run_feed f (call ∷ calls) = run_feed (call_feed api f call.info.sender call.msg) calls

  run_feed-Represents :
      (calls : List Call) (f : Feed) (s : Storage)
      → Represents f s
      → Represents (run_feed f calls) (run s calls)
  unfolding run run_feed
  run_feed-Represents [] f s v = v
  run_feed-Represents (call ∷ calls) f s v =
      run_feed-Represents calls (call_feed api f call.info.sender call.msg)
        (settled s (execute api s call.env call.info call.msg))
        (call_feed-Represents api f s call.info v call.env call.msg)

-- The round of the last entry, and the log before the last `k` entries.
abbrev pub newest : List Entry → PriceData
newest [] = default_price
newest ((price, time) ∷ es) = record { round_id = suc (length es); price = price; timestamp = time }

abbrev pub before : ℕ → List Entry → List Entry
before zero es = es
before (suc k) [] = []
before (suc k) (e ∷ es) = before k es

last-numbered : (es : List Entry) → last (numbered es) ≡ some (newest es)
last-numbered [] = refl
last-numbered (e ∷ es) = refl

round_id-newest : (es : List Entry) → (newest es).round_id ≡ length es
round_id-newest [] = refl
round_id-newest (e ∷ es) = refl

pop_rounds-numbered :
    (k : ℕ) (es : List Entry) → k ≤ length es → pop_rounds k (numbered es) ≡ numbered (before k es)
unfolding pop_rounds
pop_rounds-numbered zero es h = refl
pop_rounds-numbered (suc k) [] h = absurd (omega arith)
pop_rounds-numbered (suc k) (e ∷ es) h = pop_rounds-numbered k es (omega (arith, h))

abbrev pub previous_entry : List Entry → ℕ → StdResult PriceData
previous_entry es k =
    if leb k (length es) then ok (newest (before k es)) else err (generic_err "Not enough history")

previous_of-numbered : (es : List Entry) (k : ℕ) → previous_of (numbered es) k ≡ previous_entry es k
previous_of-numbered es k = elim (Bool-cases (leb k (length es))) [
  | inl enough ↦
      rw
        (
          last-numbered es,
          round_id-newest es,
          enough,
          pop_rounds-numbered k es (leb→le k (length es) enough),
          last-numbered (before k es),
        )
        refl
  | inr short ↦ rw (last-numbered es, round_id-newest es, short) refl
]

-- The queries answer by the feed's owner and logs.
abbrev pub Answers : Feed → Storage → String → ℕ → Type 0
Answers f s key k =
    ((r : ConfigResponse) × (query_config s ≡ ok r) × (r.owner ≡ f.owner))
    × (query_get_price s key ≡ ok (newest (f.log key)))
    × (query_get_previous_price s key k ≡ previous_entry (f.log key) k)

Represents-Answers :
    (f : Feed) (s : Storage) (key : String) (k : ℕ) → Represents f s → Answers f s key k
unfolding query_config query_get_price query_get_previous_price
Represents-Answers f s key k ((c, ec, owner), v) = (
  (record { owner = c.owner; decimals = c.decimals }, rw ec refl, owner),
  rw (v key, last-numbered (f.log key)) refl,
  ap (λ xs. previous_of xs k) (v key) ∙ previous_of-numbered (f.log key) k,
)

-- A feed of empty logs.
abbrev pub new_feed : String → Feed
new_feed owner = record { owner = owner; log = λ key. [] }

instantiate-Represents :
    (env : Env) (info : MessageInfo) (msg : InstantiateMsg) {s : Storage} {r : Response Payload}
    → instantiate env info msg ≡ ok (s, r)
    → Represents (new_feed info.sender) s
unfolding instantiate
instantiate-Represents env info msg {s} {r} h =
    let (decimals, _, e) = >>=-eq-ok (u128_pow10 msg.decimals) _ h in
    let same : record {
      config = some (record { owner = info.sender; decimals = decimals });
      prices = λ _. none;
    }
        ≡ s =
      ap (λ (p : Storage × Response Payload). p.0) (ok-injective e) in
    rw (← same) ((record { owner = info.sender; decimals = decimals }, refl, refl), λ key. refl)

-- After an instantiation and any sequence of calls of the price feed, by anybody, of which those
-- that fail change nothing, the queries answer as a plain log does that takes only the owner's
-- entries, several at once all or none: query_config with the log's owner, query_get_price with
-- the newest entry of the key under its number, or zeros if there is none, and
-- query_get_previous_price with the entry `k` before it, or the error that there is not enough
-- history.
pub instantiate-Answers :
    (api : Api) (env : Env) (info : MessageInfo) (msg : InstantiateMsg) (calls : List Call)
    (key : String) (k : ℕ) {s : Storage} {r : Response Payload}
    → instantiate env info msg ≡ ok (s, r)
    → Answers (run_feed api (new_feed info.sender) calls) (run api s calls) key k
instantiate-Answers api env info msg calls key k {s} h =
    Represents-Answers (run_feed api (new_feed info.sender) calls) (run api s calls) key k (
      run_feed-Represents api calls (new_feed info.sender) s
        (instantiate-Represents env info msg h))
