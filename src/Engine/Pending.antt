-- ===== src/Engine/Pending.antt =====
-- The pending swap of state.rs, and the replies that need it.
use mrgnd_perpetuals.Base.{
  ℕ, ◌≡◌, refl, ◌⊎◌, inl, inr, Bool-cases, Option, some, Option-cases, List, ok, ◌>>=◌, >>=-eq-ok,
  ◌==◌, arith,
}
use mrgnd_perpetuals.Cosmwasm.{StdResult, Uint128, Api, Env, Response}
use mrgnd_perpetuals.Perp.Messages.{Payload}
use mrgnd_perpetuals.Engine.State.{Imports, Storage, Swap, load, read_tmp_swap}
use mrgnd_perpetuals.Engine.Handle.{Handled}
use mrgnd_perpetuals.Engine.Reply.{
  increase_position_reply, decrease_position_reply, reverse_position_reply,
}
use mrgnd_perpetuals.Engine.Contract.{reply, Event, ContractResult, success, failure, parse_swap}

read_tmp_swap_inv :
    (s : Storage) {tmp : Option Swap}
    → read_tmp_swap s ≡ ok tmp
    → (swap : Swap) × (s.tmp_swap ≡ some swap)
unfolding read_tmp_swap
read_tmp_swap_inv s h = elim (Option-cases s.tmp_swap) [
  | inl e ↦ absurd (ground arith)
  | inr found ↦ found
]

module _ (u : Uint128) (host : Imports) (s : Storage) (env : Env) (input output : ℕ)
    {p : Storage × Response Payload} where
  increase-pending :
      increase_position_reply u host s env input output ≡ ok p
      → (swap : Swap) × (s.tmp_swap ≡ some swap)
  unfolding increase_position_reply
  increase-pending h =
      let (_, _, h₁) = >>=-eq-ok (load s.config) _ h in
      let (_, e, _) = >>=-eq-ok (read_tmp_swap s) _ h₁ in read_tmp_swap_inv s e

  decrease-pending :
      decrease_position_reply u host s env input output ≡ ok p
      → (swap : Swap) × (s.tmp_swap ≡ some swap)
  unfolding decrease_position_reply
  decrease-pending h = let (_, e, _) = >>=-eq-ok (read_tmp_swap s) _ h in read_tmp_swap_inv s e

  reverse-pending :
      reverse_position_reply u host s env input output ≡ ok p
      → (swap : Swap) × (s.tmp_swap ≡ some swap)
  unfolding reverse_position_reply
  reverse-pending h = let (_, e, _) = >>=-eq-ok (read_tmp_swap s) _ h in read_tmp_swap_inv s e

-- A parsed swap handed to a reply that needs a pending one.
parsed-pending :
    (s : Storage) (m : StdResult (ℕ × ℕ)) (f : ℕ → ℕ → Handled) {p : Storage × Response Payload}
    → ((input output : ℕ) → f input output ≡ ok p → (swap : Swap) × (s.tmp_swap ≡ some swap))
    → (m >>= λ n. f n.0 n.1) ≡ ok p
    → (swap : Swap) × (s.tmp_swap ≡ some swap)
parsed-pending s m f needs h =
    let ((input, output), _, h') = >>=-eq-ok m _ h in needs input output h'

-- A reply succeeds only for a message that succeeded, with one of the three ids of an opening,
-- and only if a swap is pending.
pub reply-pending :
    (u : Uint128) (api : Api) (host : Imports) (s : Storage) (env : Env) (id : ℕ)
    (result : ContractResult) {p : Storage × Response Payload}
    → reply u api host s env id result ≡ ok p
    → (events : List Event) × (swap : Swap) × (result ≡ success events)
      × (s.tmp_swap ≡ some swap)
      × ((id ≡ 1) ⊎ (id ≡ 2) ⊎ (id ≡ 3))
unfolding reply
reply-pending u api host s env id (failure e) h = absurd (ground arith)
reply-pending u api host s env id (success events) {p} h = elim (Bool-cases (id == 1)) [
  | inl one ↦
      (let (swap, e) =
          parsed-pending s (parse_swap api events) (increase_position_reply u host s env)
            (λ input output. increase-pending u host s env input output) (rw one at h) in
        (events, swap, refl, e, inl (ground arith)))
  | inr other ↦ elim (Bool-cases (id == 2)) [
    | inl two ↦
        (let (swap, e) =
            parsed-pending s (parse_swap api events) (decrease_position_reply u host s env)
              (λ input output. decrease-pending u host s env input output) (rw (other, two) at h) in
          (events, swap, refl, e, inr (inl (ground arith))))
    | inr others ↦ elim (Bool-cases (id == 3)) [
      | inl three ↦
          (let (swap, e) =
              parsed-pending s (parse_swap api events) (reverse_position_reply u host s env)
                (λ input output. reverse-pending u host s env input output)
                (rw (other, others, three) at h) in
            (events, swap, refl, e, inr (inr (ground arith))))
      | inr none_left ↦ absurd (ground arith)
    ]
  ]
]
