-- ===== src/Vamm/History.antt =====
-- A vAMM from its instantiation on: any sequence of calls by anybody, of which the host drops the
-- effects of those that fail.
use native.Mathlib.Nat.{le_refl, le_trans}
use mrgnd_perpetuals.Base.{
  ℕ, ◌*◌, ◌/◌, ◌≡◌, refl, ◌∙◌, List, [], ◌∷◌, Outcome, ok, err, panic, arith, ◌^◌, none, some, ltb,
  if◌then◌else◌,
}
use mrgnd_perpetuals.Cosmwasm.{
  Api, Env, MessageInfo, Response, default_response, Uint128, IsUint128,
}
use mrgnd_perpetuals.Perp.Messages.{Payload}
use mrgnd_perpetuals.Perp.Vamm.{InstantiateMsg, ExecuteMsg}
use mrgnd_perpetuals.Vamm.State.{Storage, State, ContractError, counter_of, save_snapshot}
use mrgnd_perpetuals.Vamm.Contract.{instantiate, execute}
use mrgnd_perpetuals.Vamm.Price.{billion}
use mrgnd_perpetuals.Vamm.Reserves.{snapshot_of}
use mrgnd_perpetuals.Vamm.Invariant.{HasInvariant, execute-HasInvariant}
use mrgnd_perpetuals.Vamm.Snapshots.{HasSnapshots, KeepsSnapshots, Advances, execute-Advances}

pub record Call : Type 0 where
  pub env : Env
  pub info : MessageInfo
  pub msg : ExecuteMsg

-- The storage after a call that began with `s`.
abbrev pub settled : Storage → Outcome ContractError (Storage × Response Payload) → Storage
settled s (ok (s', _)) = s'
settled s (err _) = s
settled s panic = s

unfoldable pub run : Uint128 → Api → Storage → List Call → Storage
run u api s [] = s
run u api s (call ∷ calls) =
    run u api (settled s (execute u api s call.env call.info call.msg)) calls

-- A property that every successful call keeps holds after any call.
settled-keeps :
    (P : Storage → Type 0) (s : Storage) (o : Outcome ContractError (Storage × Response Payload))
    → P s
    → ((s' : Storage) (r : Response Payload) → o ≡ ok (s', r) → P s')
    → P (settled s o)
settled-keeps P s (ok (s', r)) h keep = keep s' r refl
settled-keeps P s (err e) h keep = h
settled-keeps P s panic h keep = h

KeepsSnapshots-refl : (s : Storage) → KeepsSnapshots s s
KeepsSnapshots-refl s = record { not_fewer = le_refl (counter_of s); kept = λ i h. refl }

KeepsSnapshots-trans :
    (s t w : Storage) → KeepsSnapshots s t → KeepsSnapshots t w → KeepsSnapshots s w
KeepsSnapshots-trans s t w a b = record {
  not_fewer = le_trans a.not_fewer b.not_fewer;
  kept = λ i h. b.kept i (le_trans h a.not_fewer) ∙ a.kept i h;
}

module _ (u : Uint128) (laws : IsUint128 u) (api : Api) where
  -- In a market of nine decimals, after any sequence of calls by anybody, of which those that
  -- fail change nothing, a lower bound of the invariant is still one.
  pub run-HasInvariant :
      (calls : List Call) (s : Storage) {k : ℕ}
      → HasInvariant s k
      → HasInvariant (run u api s calls) k
  unfolding run
  run-HasInvariant [] s v = v
  run-HasInvariant (call ∷ calls) s {k} v =
      let o = execute u api s call.env call.info call.msg in
      run-HasInvariant calls (settled s o) (
        settled-keeps (λ t. HasInvariant t k) s o v
          λ s' r e. execute-HasInvariant u laws api s call.env call.info v call.msg e)

  pub run-Advances :
      (calls : List Call) (s : Storage) → HasSnapshots s → Advances s (run u api s calls)
  unfolding run
  run-Advances [] s v = (v, KeepsSnapshots-refl s)
  run-Advances (call ∷ calls) s v =
      let o = execute u api s call.env call.info call.msg in
      let (w, kept) =
        settled-keeps (Advances s) s o (v, KeepsSnapshots-refl s)
          λ s' r e. execute-Advances u laws api s call.env call.info v call.msg e in
      let (w', kept') = run-Advances calls (settled s o) w in
      (w', KeepsSnapshots-trans s (settled s o) (run u api (settled s o) calls) kept kept')

abbrev initial_state : InstantiateMsg → State
initial_state msg = record {
  quote_asset_reserve = msg.quote_asset_reserve;
  base_asset_reserve = msg.base_asset_reserve;
  funding_rate = 0;
  funding_period = msg.funding_period;
}

-- The storage that `instantiate` leaves.
abbrev initial : Env → MessageInfo → InstantiateMsg → Storage
initial env info msg = record {
  config = some (record {
    owner = info.sender;
    quote_asset = msg.quote_asset;
    base_asset = msg.base_asset;
    decimals = 10 ^ msg.decimals;
    toll_ratio = msg.toll_ratio;
    spread_ratio = msg.spread_ratio;
  });
  state = some (initial_state msg);
  reserve_snapshot = save_snapshot (λ _. none) 1 (snapshot_of env (initial_state msg));
  reserve_snapshot_counter = some 1;
}

module _ (env : Env) (info : MessageInfo) (msg : InstantiateMsg) where
  pub instantiate-initial :
      instantiate env info msg
      ≡ (if ltb msg.decimals 39 then ok (initial env info msg, default_response) else panic)
  unfolding instantiate
  instantiate-initial = ground arith

  instantiate_inv :
      {s : Storage} {r : Response Payload}
      → instantiate env info msg ≡ ok (s, r)
      → s ≡ initial env info msg
  instantiate_inv h = ground (arith, instantiate-initial)

  pub instantiate-HasInvariant :
      {s : Storage} {r : Response Payload}
      → instantiate env info msg ≡ ok (s, r)
      → msg.decimals ≡ 9
      → HasInvariant s (msg.quote_asset_reserve * msg.base_asset_reserve / billion)
  instantiate-HasInvariant h nine = rw (instantiate_inv h) (record {
    config = _;
    state = initial_state msg;
    config_stored = refl;
    state_stored = refl;
    nine = rw nine;
    covered = rw nine (le_refl _);
  })

  pub instantiate-HasSnapshots :
      {s : Storage} {r : Response Payload} → instantiate env info msg ≡ ok (s, r) → HasSnapshots s
  instantiate-HasSnapshots h = rw (instantiate_inv h) (record {
    config = _;
    config_stored = refl;
    state = initial_state msg;
    state_stored = refl;
    counted = omega arith;
    latest = snapshot_of env (initial_state msg);
    latest_stored = refl;
    latest_quote = refl;
    latest_base = refl;
    filled = λ i pos h. (snapshot_of env (initial_state msg), ground arith);
    fresh = λ i h. ground arith;
  })
