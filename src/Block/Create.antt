-- ===== src/Block/Create.antt =====
-- New blocks (block/block.go, `NewBlock` and `NewGenesisBlock`).
use toyblockchain.Prelude.{Option, List, [], Result}
use toyblockchain.Prelude.Int.{ℤ, pos}
use toyblockchain.Prelude.Bytes.{Bytes}
use toyblockchain.Platform.{Platform}
use toyblockchain.Block.Types.{Transaction, Block, genesis_prev_hash}
use toyblockchain.Block.Merkle.{calculate_merkle_root}
use toyblockchain.Block.Mine.{MiningLimits, MiningError, Event, worker_count, mine}

module _ (p : Platform) where
  -- at the Unix time `clock`
  unfoldable pub new_block : ℤ → ℤ → List Transaction → Bytes → ℤ → Block
  new_block clock height transactions previous_hash difficulty = record {
    height = height;
    timestamp = clock;
    transactions = transactions;
    merkle_root = calculate_merkle_root p transactions;
    prev_hash = previous_hash;
    nonce = 0;
    difficulty = difficulty;
    hash = [];
  }

  -- before it is mined
  abbrev pub genesis_header : ℤ → Block
  genesis_header difficulty = new_block (pos 0) (pos 0) [] genesis_prev_hash difficulty

  unfoldable pub new_genesis_block :
      ℤ → MiningLimits → ℤ → List Event → Option (Result MiningError Block)
  new_genesis_block difficulty limits cpus events =
      let genesis_limits = record limits { workers = pos 1 } in
      mine p (genesis_header difficulty) genesis_limits (worker_count genesis_limits cpus) events
