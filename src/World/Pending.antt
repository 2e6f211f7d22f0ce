-- ===== src/World/Pending.antt =====
-- The messages that wait while a transaction runs, and the engine's pending swap, through
-- `reply`.
use mrgnd_perpetuals.Base.{
  ℕ, suc, ◌≤◌, ◌<◌, ◌≡◌, ◌⊎◌, inl, inr, none, [], ◌∷◌, ◌==◌, if◌then◌else◌, Bool-cases, Ensures,
  Ensures-err, Ensures-mono, Ensures->>=, arith,
}
use mrgnd_perpetuals.Cosmwasm.{Uint128, Api, Env, SubMsg, always, never, Response}
use mrgnd_perpetuals.Perp.Messages.{Payload}
use mrgnd_perpetuals.Engine.State.{Imports, Storage}
use mrgnd_perpetuals.Engine.Contract.{ContractResult, success, failure, reply, parse_swap}
use mrgnd_perpetuals.Engine.Sent.{Ends, GoesOn, increase-Ends, decrease-Ends, reverse-Settles}

-- The rounds that a message with this id and its replies take: a reversal may go on to an increase,
-- which goes on to a payment.
abbrev pub rounds_of : ℕ → ℕ
rounds_of id = if id == 3 then 3 else if id == 1 then 2 else 1

-- No swap is pending and at most one message waits, that asks for no reply; or one waits that does.
-- In either case `n` rounds are enough.
abbrev pub Waits : ℕ → Storage × Response Payload → Type 0
Waits n (s, r) =
    ((s.tmp_swap ≡ none)
      × ((r.messages ≡ [])
          ⊎ ((m : SubMsg Payload) × (r.messages ≡ m ∷ []) × (m.reply_on ≡ never) × (0 < n))))
    ⊎ ((m : SubMsg Payload) × (r.messages ≡ m ∷ []) × (m.reply_on ≡ always) × (rounds_of m.id ≤ n))

Ends-Waits : (n : ℕ) (p : Storage × Response Payload) → Ends p → 0 < n → Waits n p
Ends-Waits n p (gone, inl e) pos = inl (gone, inl e)
Ends-Waits n p (gone, inr (m, e, silent)) pos = inl (gone, inr (m, e, silent, pos))

Settles-Waits : (n : ℕ) → 2 ≤ n → (p : Storage × Response Payload) → Ends p ⊎ GoesOn p → Waits n p
Settles-Waits n room p (inl ends) = Ends-Waits n p ends (omega arith)
Settles-Waits n room p (inr (m, e, asks, increase)) = inr (m, e, asks, rw increase room)

pub reply-Waits :
    (u : Uint128) (api : Api) (host : Imports) (s : Storage) (env : Env) (id n : ℕ)
    (result : ContractResult)
    → rounds_of id ≤ suc n
    → Ensures (Waits n) (reply u api host s env id result)
unfolding reply
reply-Waits u api host s env id n (failure e) h = Ensures-err (Waits n) _
reply-Waits u api host s env id n (success events) h = elim (Bool-cases (id == 1)) [
  | inl one ↦ rw one (
      Ensures->>= (Waits n) (parse_swap api events) _ λ (input, output) _.
        Ensures-mono Ends (Waits n) _ (increase-Ends u host s env input output)
          λ p ends. Ends-Waits n p ends (ground arith))
  | inr not_one ↦ elim (Bool-cases (id == 2)) [
    | inl two ↦
        rw (not_one, two)
          (Ensures->>= (Waits n) (parse_swap api events) _ λ (input, output) _.
            Ensures-mono (λ p. Ends p × (p.1.messages ≡ [])) (Waits n) _
              (decrease-Ends u host s env input output)
              λ p (ends, silent). inl (ends.0, inl silent))
    | inr not_two ↦ elim (Bool-cases (id == 3)) [
      | inl three ↦
          rw (not_one, not_two, three)
            (Ensures->>= (Waits n) (parse_swap api events) _ λ (input, output) _.
              Ensures-mono (λ p. Ends p ⊎ GoesOn p) (Waits n) _
                (reverse-Settles u host s env input output) (Settles-Waits n (ground arith)))
      | inr not_three ↦ rw (not_one, not_two, not_three) (Ensures-err (Waits n) _)
    ]
  ]
]
