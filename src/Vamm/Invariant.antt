-- ===== src/Vamm/Invariant.antt =====
-- The invariant of a market of nine decimals through the calls of contract.rs. Nine, since
-- `modulo` has that number hardcoded.
use native.Mathlib.Nat.{le-div_iff_mul-le, div-mul-le_self, mul_comm, le_trans}
use mrgnd_perpetuals.Base.{String, Option, ℕ, ◌*◌, ◌/◌, ◌≤◌, ◌≡◌, refl, ok, some, arith, ◌∙◌}
use mrgnd_perpetuals.Cosmwasm.{
  Api, Env, MessageInfo, Response, Uint128, IsUint128, eq-documented, documented,
}
use mrgnd_perpetuals.Perp.Messages.{Payload}
use mrgnd_perpetuals.Perp.Vamm.{ExecuteMsg, Direction}
use mrgnd_perpetuals.Vamm.State.{State, Config, Storage}
use mrgnd_perpetuals.Vamm.Handle.{
  update_config, swap_input, swap_output, flip, get_input_price_with_reserves,
  get_output_price_with_reserves, moved_reserves, moved,
}
use mrgnd_perpetuals.Vamm.Configuration.{update_config_inv}
use mrgnd_perpetuals.Vamm.Contract.{execute}
use mrgnd_perpetuals.Vamm.Price.{billion, price_at}
use mrgnd_perpetuals.Vamm.Swap.{
  flip-flip, invariant_k, product-covers, moved_reserves_inv, get_input_inv, get_output_inv,
  swap_input_inv, swap_output_inv,
}

-- A market of nine decimals whose reserves have an invariant of at least `k`.
pub record HasInvariant (s : Storage) (k : ℕ) : Type 0 where
  pub config : Config
  pub state : State
  pub config_stored : s.config ≡ some config
  pub state_stored : s.state ≡ some state
  pub nine : config.decimals ≡ billion
  pub covered : k ≤ invariant_k config state

-- Reserves `x` and `y` whose product covers `k * 10^9` have an invariant of `k` or more.
invariant_k-le : (k x y : ℕ) → k * billion ≤ x * y → k ≤ x * y / billion
invariant_k-le k x y h = (le-div_iff_mul-le (omega arith)).1 h

-- A trade of `a` into the reserve `x`, priced at the other reserve `z`, and the reserves after it.
trade_covers :
    (x a y z r x' z' decimals : ℕ) (direction : Direction)
    → decimals ≡ billion
    → moved documented direction x a ≡ ok y
    → price_at decimals (x * z / decimals) y z direction ≡ ok r
    → moved documented direction x a ≡ ok x'
    → moved documented (flip direction) z r ≡ ok z'
    → x * z / billion ≤ x' * z' / billion
trade_covers x a y z r x' z' decimals direction nine my price mx mz =
    let same : y ≡ x' = cc in
    invariant_k-le (x * z / billion) x' z' (
      product-covers (x * z / billion) x a x' z r z' direction (div-mul-le_self (x * z) billion) mx
        (rw (nine, same) at price) mz)

module _ (s : Storage) {st : State} {c : Config} (es : s.state ≡ some st) (ec : s.config ≡ some c)
    (nine : c.decimals ≡ billion) where
  input_covers :
      (direction : Direction) (q b : ℕ) (st' : State)
      → get_input_price_with_reserves documented s direction q ≡ ok b
      → moved_reserves documented st direction q b ≡ ok st'
      → invariant_k c st ≤ invariant_k c st'
  input_covers direction q b st' priced em =
      let (y, my, price) = get_input_inv s es ec direction q priced in
      let (mq, mb, _, _) = moved_reserves_inv st direction q b em in
      rw nine (
        trade_covers st.quote_asset_reserve q y st.base_asset_reserve b st'.quote_asset_reserve
          st'.base_asset_reserve c.decimals direction nine my price mq mb)

  output_covers :
      (direction : Direction) (q b : ℕ) (st' : State)
      → get_output_price_with_reserves documented s direction b ≡ ok q
      → moved_reserves documented st (flip direction) q b ≡ ok st'
      → invariant_k c st ≤ invariant_k c st'
  output_covers direction q b st' priced em =
      let (y, my, price) = get_output_inv s es ec direction b priced in
      let (mq, mb, _, _) = moved_reserves_inv st (flip direction) q b em in
      rw (nine, mul_comm st.quote_asset_reserve, mul_comm st'.quote_asset_reserve)
        (trade_covers st.base_asset_reserve b y st.quote_asset_reserve q st'.base_asset_reserve
          st'.quote_asset_reserve c.decimals direction nine my
          (rw (mul_comm st.quote_asset_reserve) at price) (rw flip-flip at mb) mq)

-- The changed configuration has the old decimals, and the reserves are as before.
update_config-HasInvariant :
    (api : Api) (s : Storage) (info : MessageInfo) (owner : Option String)
    (toll_ratio spread_ratio : Option ℕ) {k : ℕ} {s' : Storage} {r : Response Payload}
    → HasInvariant s k
    → update_config api s info owner toll_ratio spread_ratio ≡ ok (s', r)
    → HasInvariant s' k
update_config-HasInvariant api s info owner toll_ratio spread_ratio v h =
    let (c', _, changed, same, _) =
      update_config_inv api s info owner toll_ratio spread_ratio v.config_stored h in
    rw same (record {
      config = c';
      state = v.state;
      config_stored = refl;
      state_stored = v.state_stored;
      nine = changed.decimals_kept ∙ v.nine;
      covered = rw (changed.decimals_kept) v.covered;
    })

module _ (u : Uint128) (laws : IsUint128 u) (api : Api) (s : Storage) (env : Env)
    (info : MessageInfo) {k : ℕ} (v : HasInvariant s k) where
  swap_input-HasInvariant :
      (direction : Direction) (q : ℕ) {s' : Storage} {r : Response Payload}
      → swap_input u api s env info direction q ≡ ok (s', r)
      → HasInvariant s' k
  swap_input-HasInvariant = rw (eq-documented u laws) λ direction q s' r h.
      let (b, st', priced, em, same, _) =
        swap_input_inv api s env info v.state_stored direction q h in
      rw same (record {
        config = v.config;
        state = st';
        config_stored = v.config_stored;
        state_stored = refl;
        nine = v.nine;
        covered =
            le_trans v.covered
              (input_covers s v.state_stored v.config_stored v.nine direction q b st' priced em);
      })

  swap_output-HasInvariant :
      (direction : Direction) (b : ℕ) {s' : Storage} {r : Response Payload}
      → swap_output u api s env info direction b ≡ ok (s', r)
      → HasInvariant s' k
  swap_output-HasInvariant = rw (eq-documented u laws) λ direction b s' r h.
      let (q, st', priced, em, same, _) =
        swap_output_inv api s env info v.state_stored direction b h in
      rw same (record {
        config = v.config;
        state = st';
        config_stored = v.config_stored;
        state_stored = refl;
        nine = v.nine;
        covered =
            le_trans v.covered
              (output_covers s v.state_stored v.config_stored v.nine direction q b st' priced em);
      })

  -- In a market of nine decimals, no successful call of execute, a swap in either direction or a
  -- change of the configuration, by anybody, lowers the invariant: a lower bound of quote
  -- reserve times base reserve over 10^9 is one of the market after it, which still has nine
  -- decimals.
  pub execute-HasInvariant :
      (msg : ExecuteMsg) {s' : Storage} {r : Response Payload}
      → execute u api s env info msg ≡ ok (s', r)
      → HasInvariant s' k
  unfolding execute
  execute-HasInvariant (ExecuteMsg.update_config owner toll_ratio spread_ratio) h =
      update_config-HasInvariant api s info owner toll_ratio spread_ratio v h
  execute-HasInvariant (ExecuteMsg.swap_input direction q) h = swap_input-HasInvariant direction q h
  execute-HasInvariant (ExecuteMsg.swap_output direction b) h =
      swap_output-HasInvariant direction b h
