-- ===== src/World/History.antt =====
-- A chain from any idle world on: transactions of the engine and direct calls of the vAMMs, by
-- anybody and in any order, of which those that fail change nothing.
use mrgnd_perpetuals.Base.{
  ℕ, ◌≡◌, ◌∙◌, ap, refl, String, Option, none, some, List, [], ◌∷◌, ok, err, panic,
}
use mrgnd_perpetuals.Cosmwasm.{StdResult, IsUint128}
use mrgnd_perpetuals.Perp.Engine.{ExecuteMsg}
use mrgnd_perpetuals.Perp.Vamm
use mrgnd_perpetuals.Engine.State.{Storage}
use mrgnd_perpetuals.World.State.{Chain, Block, World}
use mrgnd_perpetuals.World.Dispatch.{transaction, run_vamm}
use mrgnd_perpetuals.World.Settled.{Ended, transaction-Ended, run_vamm-engine}
use mrgnd_perpetuals.World.Markets.{IsMarket, transaction-IsMarket, run_vamm-IsMarket}

-- Who calls what, in which block.
pub data Call : Type 0 where
  engine_call : Block → String → ExecuteMsg → Call
  vamm_call : Block → String → String → Vamm.ExecuteMsg → Call

module _ {T : Type 0} (c : Chain T) where
  abbrev pub settled : World T → Option (StdResult (World T)) → World T
  settled w none = w
  settled w (some (ok w')) = w'
  settled w (some (err e)) = w
  settled w (some panic) = w

  unfoldable pub called : World T → Call → World T
  called w (engine_call b sender msg) = settled w (transaction c b 3 w sender msg)
  called w (vamm_call b sender address msg) =
      (run_vamm c b w sender address (w.vamms address) msg).0

  unfoldable pub run : World T → List Call → World T
  run w [] = w
  run w (call ∷ calls) = run (called w call) calls

module _ {T : Type 0} (c : Chain T) (laws : IsUint128 c.uint128) (a : String) (k : ℕ) where
  -- No swap is pending, and the market at the address has its invariant.
  abbrev pub IsSound : World T → Type 0
  IsSound w = (w.engine.tmp_swap ≡ none) × IsMarket a k w

  settled-IsSound :
      (b : Block) (w : World T) (answer : Option (StdResult (World T)))
      → Ended c b answer
      → ((w' : World T) → answer ≡ some (ok w') → IsMarket a k w')
      → IsSound w
      → IsSound (settled c w answer)
  settled-IsSound b w none e market v = v
  settled-IsSound b w (some (ok w')) (o, same, idle) market v = (idle.holds w' (cc), market w' refl)
  settled-IsSound b w (some (err why)) e market v = v
  settled-IsSound b w (some panic) e market v = v

  called-IsSound : (w : World T) (call : Call) → IsSound w → IsSound (called c w call)
  unfolding called
  called-IsSound w (engine_call b sender msg) (idle, v) =
      settled-IsSound b w _ (transaction-Ended c b w sender msg idle)
        (λ w' h. transaction-IsMarket c b laws a k 3 w sender msg w' v h) (idle, v)
  called-IsSound w (vamm_call b sender address msg) (idle, v) = (
    ap (λ (s : Storage). s.tmp_swap) (run_vamm-engine c b w sender address (w.vamms address) msg)
        ∙ idle,
    run_vamm-IsMarket c b laws a k w sender address msg v,
  )

  -- In a world where no swap is pending and where a market of nine decimals at some address has
  -- an invariant of at least `k`, both are so after any sequence of transactions of the engine
  -- and direct calls of vAMMs, by anybody and in any blocks, of which those that fail change
  -- nothing.
  pub run-IsSound : (w : World T) (calls : List Call) → IsSound w → IsSound (run c w calls)
  unfolding run
  run-IsSound w [] v = v
  run-IsSound w (call ∷ calls) v = run-IsSound (called c w call) calls (called-IsSound w call v)
