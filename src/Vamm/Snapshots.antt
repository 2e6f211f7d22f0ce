-- ===== src/Vamm/Snapshots.antt =====
-- The history of reserve snapshots through the calls of contract.rs.
use mrgnd_perpetuals.Base.{
  ℕ, ◌+◌, ◌≤◌, ◌<◌, ◌≡◌, refl, ◌∙◌, Option, none, some, ok, arith, ◌⊎◌, ◌==◌, Bool-cases, inl, inr,
}
use mrgnd_perpetuals.Cosmwasm.{Api, Env, MessageInfo, Response, Uint128, IsUint128, eq-documented}
use mrgnd_perpetuals.Perp.Messages.{Payload}
use mrgnd_perpetuals.Perp.Vamm.{ExecuteMsg}
use mrgnd_perpetuals.Vamm.State.{State, Storage, ReserveSnapshot, Config, save_snapshot, counter_of}
use mrgnd_perpetuals.Vamm.Contract.{execute}
use mrgnd_perpetuals.Vamm.Configuration.{update_config_inv}
use mrgnd_perpetuals.Vamm.Reserves.{recorded, snapshot_of}
use mrgnd_perpetuals.Vamm.Swap.{swap_input_inv, swap_output_inv}

pub record HasSnapshots (s : Storage) : Type 0 where
  pub config : Config
  pub config_stored : s.config ≡ some config
  pub state : State
  pub state_stored : s.state ≡ some state
  pub counted : 0 < counter_of s
  pub latest : ReserveSnapshot
  pub latest_stored : s.reserve_snapshot (counter_of s) ≡ some latest
  pub latest_quote : latest.quote_asset_reserve ≡ state.quote_asset_reserve
  pub latest_base : latest.base_asset_reserve ≡ state.base_asset_reserve
  pub filled :
      (i : ℕ)
      → 0 < i
      → i ≤ counter_of s
      → (snapshot : ReserveSnapshot) × (s.reserve_snapshot i ≡ some snapshot)
  pub fresh : (i : ℕ) → counter_of s < i → s.reserve_snapshot i ≡ none

-- The snapshots of `s` are all in `s'`, under the same counters.
pub record KeepsSnapshots (s s' : Storage) : Type 0 where
  pub not_fewer : counter_of s ≤ counter_of s'
  pub kept : (i : ℕ) → i ≤ counter_of s → s'.reserve_snapshot i ≡ s.reserve_snapshot i

save_snapshot_self :
    (bucket : ℕ → Option ReserveSnapshot) (n : ℕ) (x : ReserveSnapshot)
    → save_snapshot bucket n x n ≡ some x
save_snapshot_self bucket n x = ground arith

save_snapshot_ne :
    (bucket : ℕ → Option ReserveSnapshot) (n i : ℕ) (x : ReserveSnapshot)
    → i < n ⊎ n < i
    → save_snapshot bucket n x i ≡ bucket i
save_snapshot_ne bucket n i x h = ground arith

filled-save_snapshot :
    (bucket : ℕ → Option ReserveSnapshot) (n : ℕ) (x : ReserveSnapshot)
    → ((i : ℕ) → 0 < i → i ≤ n → (snapshot : ReserveSnapshot) × (bucket i ≡ some snapshot))
    → (i : ℕ) → 0 < i
    → i ≤ n + 1
    → (snapshot : ReserveSnapshot) × (save_snapshot bucket (n + 1) x i ≡ some snapshot)
filled-save_snapshot bucket n x old i pos h = elim (Bool-cases (i == n + 1)) [
  | inl last ↦ (x, ground arith)
  | inr other ↦
      let below : i ≤ n = ground arith in
      let (y, e) = old i pos below in
      (y, save_snapshot_ne bucket (n + 1) i x (inl (omega arith)) ∙ e)
]

recorded-HasSnapshots :
    (s : Storage) (env : Env) (state : State) → HasSnapshots s → HasSnapshots (recorded s env state)
recorded-HasSnapshots s env state v = record {
  config = v.config;
  config_stored = v.config_stored;
  state = state;
  state_stored = refl;
  counted = omega arith;
  latest = snapshot_of env state;
  latest_stored = save_snapshot_self s.reserve_snapshot (counter_of s + 1) (snapshot_of env state);
  latest_quote = refl;
  latest_base = refl;
  filled = filled-save_snapshot s.reserve_snapshot (counter_of s) (snapshot_of env state) v.filled;
  fresh = λ i above.
      save_snapshot_ne s.reserve_snapshot (counter_of s + 1) i (snapshot_of env state) (inr above)
      ∙ v.fresh i (omega arith);
}

recorded-KeepsSnapshots :
    (s : Storage) (env : Env) (state : State) → KeepsSnapshots s (recorded s env state)
recorded-KeepsSnapshots s env state = record {
  not_fewer = omega arith;
  kept = λ i h.
      save_snapshot_ne s.reserve_snapshot (counter_of s + 1) i (snapshot_of env state)
        (inl (omega arith));
}

-- The snapshots are as good after the call as before it, and the old ones are there unchanged.
abbrev pub Advances : Storage → Storage → Type 0
Advances s s' = HasSnapshots s' × KeepsSnapshots s s'

recorded-Advances :
    (s : Storage) (env : Env) (state : State) → HasSnapshots s → Advances s (recorded s env state)
recorded-Advances s env state v =
    (recorded-HasSnapshots s env state v, recorded-KeepsSnapshots s env state)

reconfigured-Advances :
    (s : Storage) (c : Config) → HasSnapshots s → Advances s (record s { config = some c })
reconfigured-Advances s c v = (
  record {
    config = c;
    config_stored = refl;
    state = v.state;
    state_stored = v.state_stored;
    counted = v.counted;
    latest = v.latest;
    latest_stored = v.latest_stored;
    latest_quote = v.latest_quote;
    latest_base = v.latest_base;
    filled = v.filled;
    fresh = v.fresh;
  },
  record { not_fewer = omega arith; kept = λ i h. refl },
)

module _ (u : Uint128) (laws : IsUint128 u) (api : Api) (s : Storage) (env : Env)
    (info : MessageInfo) (v : HasSnapshots s) where
  -- If every counter up to the last has its snapshot, none stands above it, and the last one
  -- holds the reserves, then it is so after a successful call of execute, the counter has not
  -- fallen, and the old snapshots are unchanged.
  pub execute-Advances :
      (msg : ExecuteMsg) {s' : Storage} {r : Response Payload}
      → execute u api s env info msg ≡ ok (s', r)
      → Advances s s'
  unfolding execute
  execute-Advances (ExecuteMsg.update_config owner toll_ratio spread_ratio) h =
      let (c', _, _, same, _) =
        update_config_inv api s info owner toll_ratio spread_ratio v.config_stored h in
      rw same (reconfigured-Advances s c' v)
  execute-Advances (ExecuteMsg.swap_input direction q) h =
      let (_, st', _, _, same, _) =
        swap_input_inv api s env info v.state_stored direction q (rw (eq-documented u laws) at h) in
      rw same (recorded-Advances s env st' v)
  execute-Advances (ExecuteMsg.swap_output direction b) h =
      let (_, st', _, _, same, _) =
        swap_output_inv api s env info v.state_stored direction b
          (rw (eq-documented u laws) at h) in
      rw same (recorded-Advances s env st' v)
