-- ===== src/Chain/Types.antt =====
-- The structs of chain/chain.go and chain/retarget.go, and what a method can fail with. A runtime
-- panic of Go is an error too.
use toyblockchain.Prelude.{Bool, List, [], ◌∷◌, Result, ok, err}
use toyblockchain.Prelude.Int.{ℤ}
use toyblockchain.Block.Types.{Transaction, Block}
use toyblockchain.Block.Mine.{MiningError}
use toyblockchain.Ledger.{LedgerError}

pub record DifficultyRule : Type 0 where
  pub start_height : ℤ
  pub difficulty : ℤ

pub record RetargetConfig : Type 0 where
  pub enabled : Bool
  pub interval : ℤ
  pub target_block_seconds : ℤ
  pub min_difficulty : ℤ
  pub max_difficulty : ℤ

pub record Chain : Type 0 where
  pub blocks : List Block
  pub pending : List Transaction
  pub difficulty_schedule : List DifficultyRule
  pub retarget : RetargetConfig
  pub max_tx_per_block : ℤ

pub data Panic : Type 0 where
  index_out_of_range division_by_zero : Panic

pub data ConfigError : Type 0 where
  short_interval : ConfigError
  no_target_time : ConfigError
  minimum_out_of_range : ConfigError
  maximum_out_of_range : ConfigError
  minimum_above_maximum : ConfigError

-- the reasons of a `ValidationError`
pub data Reason : Type 0 where
  empty_chain : Reason
  empty_schedule : Reason
  invalid_retarget : ConfigError → Reason
  -- recorded, expected
  wrong_difficulty : ℤ → ℤ → Reason
  wrong_merkle_root : Reason
  wrong_hash : Reason
  too_little_work : Reason
  wrong_genesis_height : Reason
  wrong_genesis_previous_hash : Reason
  wrong_height : Reason
  early_timestamp : Reason
  wrong_previous_hash : Reason
  invalid_transactions : LedgerError → Reason

pub data ChainError : Type 0 where
  panicked : Panic → ChainError
  -- `ValidationError`: the height of the block, the reason
  invalid : ℤ → Reason → ChainError
  -- `ConfigureRetarget`, `NewWithRetarget`
  retarget_too_late : ChainError
  invalid_config : ConfigError → ChainError
  below_minimum : ℤ → ℤ → ChainError
  above_maximum : ℤ → ℤ → ChainError
  -- `SetDifficulty`
  difficulty_out_of_range : ChainError
  -- `AddTransaction`
  rebuilding_ledger : LedgerError → ChainError
  invalid_pending_pool : LedgerError → ChainError
  rejected : LedgerError → ChainError
  -- `MineBlock`
  no_pending_transactions : ChainError
  mining_failed : MiningError → ChainError

abbrev pub last_of {ℓ} : {A : Type ℓ} → A → List A → A
last_of x [] = x
last_of x (y ∷ ys) = last_of y ys

abbrev pub last_block : List Block → Result ChainError Block
last_block [] = err (panicked index_out_of_range)
last_block (b ∷ bs) = ok (last_of b bs)

-- `Latest`
abbrev pub latest : Chain → Result ChainError Block
latest c = last_block c.blocks
