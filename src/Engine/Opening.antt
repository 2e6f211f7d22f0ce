-- ===== src/Engine/Opening.antt =====
-- open_position of handle.rs: what a successful call leaves.
use mrgnd_perpetuals.Base.{
  ℕ, ◌*◌, ◌/◌, ◌^◌, ◌≡◌, sym, ap, subst, ◌∙◌, inl, inr, String, true, Bool-cases, some,
  Option-cases, List, [], ◌∷◌, ok, ◌>>=◌, >>=-eq-ok, ok-injective, if◌then◌else◌, ◌==◌, ltb, arith,
}
use mrgnd_perpetuals.Cosmwasm.{
  StdResult, Uint128, IsUint128, eq-documented, documented, Api, Env, MessageInfo, SubMsg, Response,
}
use mrgnd_perpetuals.Perp.Messages.{Payload}
use mrgnd_perpetuals.Perp.Engine.{Side}
use mrgnd_perpetuals.Engine.State.{
  Imports, Storage, Config, VammList, is_vamm, read_vamm, read_config,
}
use mrgnd_perpetuals.Engine.Orders.{Asked, order_inv}
use mrgnd_perpetuals.Engine.Utils.{require_vamm}
use mrgnd_perpetuals.Engine.Handle.{
  Handled, open_position, is_increase, internal_increase_position, open_reverse_position,
  get_position,
}

-- A registered vAMM.
pub record IsRegistered (s : Storage) (vamm : String) : Type 0 where
  pub vamms : VammList
  pub stored : s.vamm_list ≡ some vamms
  pub listed : is_vamm vamms vamm ≡ true

require_vamm_inv :
    (s : Storage) (vamm : String) {r : Response Payload}
    → require_vamm s vamm ≡ ok r
    → IsRegistered s vamm
unfolding require_vamm read_vamm
require_vamm_inv s vamm h = elim (Option-cases s.vamm_list) [
  | inl e ↦ absurd (ground arith)
  | inr (vamms, e) ↦ record { vamms = vamms; stored = e; listed = ground arith }
]

pub read_config_inv : (s : Storage) {c : Config} → read_config s ≡ ok c → s.config ≡ some c
unfolding read_config
read_config_inv s h = elim (Option-cases s.config) [
  | inl e ↦ absurd (ground arith)
  | inr (c, e) ↦ ground arith
]

checked_mul_inv : (a b : ℕ) {n : ℕ} → documented.checked_mul a b ≡ ok n → n ≡ a * b
checked_mul_inv a b h = elim (Bool-cases (ltb (a * b) (2 ^ 128))) [
  | inl fits ↦ sym (ok-injective (rw fits at h))
  | inr over ↦ absurd (ground arith)
]

checked_div_inv : (a b : ℕ) {n : ℕ} → documented.checked_div a b ≡ ok n → n ≡ a / b
checked_div_inv a b h = elim (Bool-cases (b == 0)) [
  | inl zero_b ↦ absurd (ground arith)
  | inr other ↦ sym (ok-injective (rw other at h))
]

-- The part of open_position that makes the message.
abbrev order : Imports → Env → Storage → String → String → Side → ℕ → StdResult (SubMsg Payload)
order host env s vamm trader side open_notional =
    (get_position host env s vamm trader side >>= λ position.
    (if is_increase position.direction side
      then internal_increase_position vamm side open_notional
      else open_reverse_position host env s vamm trader side open_notional))

module _ (host : Imports) (env : Env) (s : Storage) (vamm trader : String) (side : Side)
    (quote_asset_amount leverage : ℕ) where
  abbrev pub pending : ℕ → Storage
  pending open_notional = record s {
    tmp_swap = some (record {
      vamm = vamm;
      trader = trader;
      side = side;
      quote_asset_amount = quote_asset_amount;
      leverage = leverage;
      open_notional = open_notional;
    });
  }

  -- The end of open_position, from the notional on.
  abbrev placing : ℕ → Handled
  placing open_notional = get_position host env s vamm trader side >>= λ position.
      (if is_increase position.direction side
        then internal_increase_position vamm side open_notional
        else open_reverse_position host env s vamm trader side open_notional)
      >>= λ msg. ok (
        pending open_notional,
        record { messages = msg ∷ []; attributes = ("action", "open_position") ∷ [] },
      )

  placing_inv :
      (open_notional : ℕ) {p : Storage × Response Payload}
      → placing open_notional ≡ ok p
      → (msg : SubMsg Payload) × (order host env s vamm trader side open_notional ≡ ok msg)
        × (p.0 ≡ pending open_notional)
        × (p.1.messages ≡ msg ∷ [])
  placing_inv open_notional h =
      let (position, ep, h₁) = >>=-eq-ok (get_position host env s vamm trader side) _ h in
      let (msg, em, h₂) =
        >>=-eq-ok
          (if is_increase position.direction side
            then internal_increase_position vamm side open_notional
            else open_reverse_position host env s vamm trader side open_notional)
          (λ msg. ok (
            pending open_notional,
            record { messages = msg ∷ []; attributes = ("action", "open_position") ∷ [] },
          ))
          h₁ in
      (msg, rw ep em, cc, cc)

  sizing_inv :
      (decimals : ℕ) {p : Storage × Response Payload}
      → (documented.checked_mul quote_asset_amount leverage >>= λ leveraged.
          documented.checked_div leveraged decimals >>= placing)
        ≡ ok p
      → (msg : SubMsg Payload) × (order host env s vamm trader side
            (quote_asset_amount * leverage / decimals)
          ≡ ok msg)
        × (p.0 ≡ pending (quote_asset_amount * leverage / decimals))
        × (p.1.messages ≡ msg ∷ [])
  sizing_inv decimals {p} h =
      let (leveraged, el, h₁) =
        >>=-eq-ok (documented.checked_mul quote_asset_amount leverage)
          (λ leveraged. documented.checked_div leveraged decimals >>= placing) h in
      let (notional, en, h₂) = >>=-eq-ok (documented.checked_div leveraged decimals) placing h₁ in
      let same : notional ≡ quote_asset_amount * leverage / decimals =
        checked_div_inv leveraged decimals en
        ∙ ap (λ n. n / decimals) (checked_mul_inv quote_asset_amount leverage el) in
      placing_inv (quote_asset_amount * leverage / decimals) {p = p}
        (subst (λ n. placing n ≡ ok p) same h₂)

-- A call of open_position, told by what it was given and what it left.
pub record Opened (api : Api) (host : Imports) (s : Storage) (env : Env)
    (vamm_addr trader_addr : String) (side : Side) (quote_asset_amount leverage : ℕ) (s' : Storage)
    (messages : List (SubMsg Payload)) : Type 0 where
  pub vamm : String
  pub trader : String
  pub config : Config
  pub msg : SubMsg Payload
  pub vamm_valid : api.addr_validate vamm_addr ≡ ok vamm
  pub trader_valid : api.addr_validate trader_addr ≡ ok trader
  pub registered : IsRegistered s vamm
  pub configured : s.config ≡ some config
  pub asked : Asked host s vamm trader side (quote_asset_amount * leverage / config.decimals) msg
  pub stored :
      s'
      ≡ pending host env s vamm trader side quote_asset_amount leverage
          (quote_asset_amount * leverage / config.decimals)
  pub sent : messages ≡ msg ∷ []

module _ (api : Api) (host : Imports) (s : Storage) (env : Env) (info : MessageInfo)
    (vamm_addr trader_addr : String) (side : Side) (quote_asset_amount leverage : ℕ) {s' : Storage}
    {r : Response Payload} where
  open_position-documented :
      open_position documented api host s env info vamm_addr trader_addr side quote_asset_amount
          leverage
        ≡ ok (s', r)
      → Opened api host s env vamm_addr trader_addr side quote_asset_amount leverage s' r.messages
  unfolding open_position
  open_position-documented h =
      let (vamm, ev, h₁) = >>=-eq-ok (api.addr_validate vamm_addr) _ h in
      let (trader, et, h₂) = >>=-eq-ok (api.addr_validate trader_addr) _ h₁ in
      let (_, er, h₃) = >>=-eq-ok (require_vamm s vamm) _ h₂ in
      let (config, ec, h₄) = >>=-eq-ok (read_config s) _ h₃ in
      let (msg, ordered, stored, sent) =
        sizing_inv host env s vamm trader side quote_asset_amount leverage config.decimals
          {p = (s', r)} h₄ in
      record {
        vamm = vamm;
        trader = trader;
        config = config;
        msg = msg;
        vamm_valid = ev;
        trader_valid = et;
        registered = require_vamm_inv s vamm er;
        configured = read_config_inv s ec;
        asked =
            order_inv host env s vamm trader side (quote_asset_amount * leverage / config.decimals)
              ordered;
        stored = stored;
        sent = sent;
      }

  -- A successful open_position is on a registered vAMM, computes the order's notional as the
  -- amount times the leverage over the decimals, stores the pending swap with it, changes
  -- nothing else of the storage, and sends one message to that vAMM, which asks for a reply
  -- always. If the trader holds no position there, or one in the direction of the order (a buyer
  -- adds the quote asset, a seller removes it), the message swaps the notional in that
  -- direction, under the id 1. Otherwise the vAMM has told what the whole position is worth: the
  -- message swaps the notional in the order's direction, under the id 2, if it is less than
  -- that, and the position's size in the position's direction, under the id 3, if it is not.
  pub open_position-Opened :
      (u : Uint128)
      → IsUint128 u
      → open_position u api host s env info vamm_addr trader_addr side quote_asset_amount leverage
        ≡ ok (s', r)
      → Opened api host s env vamm_addr trader_addr side quote_asset_amount leverage s' r.messages
  open_position-Opened u laws h = open_position-documented (
      subst
        (λ v.
          open_position v api host s env info vamm_addr trader_addr side quote_asset_amount leverage
          ≡ ok (s', r))
        (eq-documented u laws) h)
