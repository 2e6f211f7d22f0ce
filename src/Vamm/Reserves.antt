-- ===== src/Vamm/Reserves.antt =====
-- update_reserve of handle.rs: the storage after it, and its inversion.
use mrgnd_perpetuals.Base.{
  ℕ, ◌+◌, ◌^◌, ◌<◌, ◌≡◌, ok, panic, ◌>>=◌, >>=-eq-ok, sym, ◌∙◌, [], ◌∷◌, some, arith, ltb,
  if◌then◌else◌,
}
use mrgnd_perpetuals.Cosmwasm.{StdResult, Env, Response, documented}
use mrgnd_perpetuals.Perp.Vamm.{Direction}
use mrgnd_perpetuals.Perp.Messages.{Payload}
use mrgnd_perpetuals.Vamm.State.{State, Storage, ReserveSnapshot, save_snapshot, counter_of}
use mrgnd_perpetuals.Vamm.Handle.{update_reserve, moved_reserves}

-- The snapshot of two reserves at a block.
abbrev pub snapshot_of : Env → State → ReserveSnapshot
snapshot_of env state = record {
  quote_asset_reserve = state.quote_asset_reserve;
  base_asset_reserve = state.base_asset_reserve;
  timestamp = env.time;
  block_height = env.height;
}

-- The storage once `state` is stored and its snapshot stands under the next counter.
abbrev pub recorded : Storage → Env → State → Storage
recorded s env state = record s {
  state = some state;
  reserve_snapshot = save_snapshot s.reserve_snapshot (counter_of s + 1) (snapshot_of env state);
  reserve_snapshot_counter = some (counter_of s + 1);
}

abbrev pub updated : Response Payload
updated = record { messages = []; attributes = ("action", "update_reserve") ∷ [] }

-- The last step, which panics once the counter is at the end of its type.
abbrev pub record_state : Storage → Env → State → StdResult (Storage × Response Payload)
record_state s env state =
    if ltb (counter_of s + 1) (2 ^ 64) then ok (recorded s env state, updated) else panic

record_state_inv :
    (s : Storage) (env : Env) (state : State) {s' : Storage} {r : Response Payload}
    → record_state s env state ≡ ok (s', r)
    → (s' ≡ recorded s env state) × (counter_of s + 1 < 2 ^ 64)
record_state_inv s env state h = ground arith

module _ (s : Storage) (env : Env) (direction : Direction) (q b : ℕ) {st : State}
    (es : s.state ≡ some st) where
  pub update_reserve-record_state :
      update_reserve documented s env direction q b
      ≡ (moved_reserves documented st direction q b >>= record_state s env)
  unfolding update_reserve
  update_reserve-record_state = ground arith

  pub update_reserve_inv :
      {s' : Storage} {r : Response Payload}
      → update_reserve documented s env direction q b ≡ ok (s', r)
      → (st' : State) × (moved_reserves documented st direction q b ≡ ok st')
        × (s' ≡ recorded s env st')
        × (counter_of s + 1 < 2 ^ 64)
  update_reserve_inv h =
      let (st', e, f) =
        >>=-eq-ok (moved_reserves documented st direction q b) (record_state s env)
          (sym update_reserve-record_state ∙ h) in
      let (same, room) = record_state_inv s env st' f in (st', e, same, room)
