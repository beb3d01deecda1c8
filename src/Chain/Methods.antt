-- ===== src/Chain/Methods.antt =====
-- How a chain is made and grows (chain/chain.go, `NewWithRetarget`, `AddTransaction`, `MineBlock`).
-- Mining follows a schedule (Block/Mine): a method that mines gives `none` while the schedule has
-- not let `Mine` return.
use toyblockchain.Prelude.{
  is_empty, ℕ, Option, none, some, List, [], ◌∷◌, ◌++◌, length, take, drop, if◌then◌else◌, Result,
  ok, err, fail_if, wrap_err, ◌>>=◌, ◌>>◌,
}
use toyblockchain.Prelude.Int.{ℤ, pos, negsuc, ltb_ℤ, leb_ℤ}
use toyblockchain.Prelude.Int64.{add64}
use toyblockchain.Platform.{Platform}
use toyblockchain.Block.Types.{Transaction, Block}
use toyblockchain.Block.Mine.{MiningLimits, MiningError, Event, worker_count, mine}
use toyblockchain.Block.Create.{new_block, new_genesis_block}
use toyblockchain.Ledger.{Ledger, LedgerError, apply, validate_transaction, rebuild}
use toyblockchain.Chain.Types.{
  Chain, RetargetConfig, ChainError, panicked, index_out_of_range, invalid_config, below_minimum,
  above_maximum, rebuilding_ledger, invalid_pending_pool, rejected, no_pending_transactions,
  mining_failed, latest,
}
use toyblockchain.Chain.Retarget.{validate_config, default_retarget_config}
use toyblockchain.Chain.Difficulty.{default_difficulty, expected_difficulty}

-- the guards of `NewWithRetarget`
unfoldable pub check_new : ℤ → RetargetConfig → Result ChainError (Unit {0})
check_new difficulty retarget = do
  wrap_err invalid_config (validate_config retarget)
  fail_if (ltb_ℤ difficulty retarget.min_difficulty)
      (below_minimum difficulty retarget.min_difficulty)
  fail_if (ltb_ℤ retarget.max_difficulty difficulty)
      (above_maximum difficulty retarget.max_difficulty)

abbrev pub initial_chain : ℤ → ℤ → RetargetConfig → Block → Chain
initial_chain difficulty max_tx_per_block retarget genesis = record {
  blocks = genesis ∷ [];
  pending = [];
  difficulty_schedule = record { start_height = pos 0; difficulty = difficulty } ∷ [];
  retarget = retarget;
  max_tx_per_block = max_tx_per_block;
}

-- What mining gives, put to use.
unfoldable pub with_mined :
    {A : Type 0} → Option (Result MiningError Block) → (Block → A) → Option (Result ChainError A)
with_mined none use_block = none
with_mined (some (err e)) use_block = some (err (mining_failed e))
with_mined (some (ok b)) use_block = some (ok (use_block b))

-- how many pending transactions a block takes: `Pending[:transactionCount]` panics below 0
unfoldable pub batch_size : ℤ → ℕ → Result ChainError ℕ
batch_size (pos max) n = ok (if ltb_ℤ (pos max) (pos n) then max else n)
batch_size (negsuc max) n = err (panicked index_out_of_range)

module _ (p : Platform) where
  unfoldable pub new_with_retarget :
      ℤ → ℤ → MiningLimits → ℤ → List Event → RetargetConfig → Option (Result ChainError Chain)
  new_with_retarget difficulty max_tx_per_block limits cpus events retarget =
      let d = if ltb_ℤ difficulty (pos 0) then default_difficulty else difficulty in
      let max = if leb_ℤ max_tx_per_block (pos 0) then pos 10 else max_tx_per_block in
      elim (check_new d retarget) [
        | err e ↦ some (err e)
        | ok _ ↦
            with_mined (new_genesis_block p d limits cpus events) (initial_chain d max retarget)
      ]

  unfoldable pub new_chain :
      ℤ → ℤ → MiningLimits → ℤ → List Event → Option (Result ChainError Chain)
  new_chain difficulty max_tx_per_block limits cpus events =
      new_with_retarget difficulty max_tx_per_block limits cpus events default_retarget_config

  -- `Chain.Ledger`
  unfoldable pub chain_ledger : Chain → Result LedgerError Ledger
  chain_ledger c = rebuild p c.blocks

  -- the loop over the pending pool
  unfoldable pub apply_pool : List Transaction → Ledger → Result LedgerError Ledger
  apply_pool [] l = ok l
  apply_pool (tx ∷ txs) l =
      let (l', r) = apply p l tx in elim r [ err e ↦ err e | ok _ ↦ apply_pool txs l' ]

  unfoldable pub add_transaction : Chain → Transaction → Result ChainError Chain
  add_transaction c tx = do
    current ← wrap_err rebuilding_ledger (chain_ledger c)
    pooled ← wrap_err invalid_pending_pool (apply_pool c.pending current)
    wrap_err rejected (validate_transaction p pooled tx)
    ok (record c { pending = c.pending ++ tx ∷ [] })

  -- `MineBlock` up to the call of `Mine`: the number of transactions it takes, and the new block
  unfoldable pub prepare_block : Chain → ℤ → Result ChainError (ℕ × Block)
  prepare_block c clock = do
    fail_if (is_empty c.pending) no_pending_transactions
    count ← batch_size c.max_tx_per_block (length c.pending)
    previous ← latest c
    expected ← expected_difficulty c (add64 previous.height (pos 1))
    ok (
      count,
      new_block p clock (add64 previous.height (pos 1)) (take count c.pending) previous.hash
          expected,
    )

  abbrev pub append_block : Chain → ℕ → Block → Chain × Block
  append_block c count b =
      (record c { blocks = c.blocks ++ b ∷ []; pending = drop count c.pending }, b)

  unfoldable pub mine_block :
      Chain → ℤ → MiningLimits → ℤ → List Event → Option (Result ChainError (Chain × Block))
  mine_block c clock limits cpus events = elim (prepare_block c clock) [
    | err e ↦ some (err e)
    | ok (count, b) ↦
        with_mined (mine p b limits (worker_count limits cpus) events) (append_block c count)
  ]
