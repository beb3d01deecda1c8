-- ===== src/Examples/Chains.antt =====
-- A chain that is created, takes a grant and mines it.
use toyblockchain.Prelude.{◌≡◌, ◌↔◌, refl, true, some, List, [], ◌∷◌, ◌++◌, arith, ok, replicate}
use toyblockchain.Prelude.Int.{pos}
use toyblockchain.Prelude.Bytes.{hex_encode, trim_space, bytes_eq, has_prefix}
use toyblockchain.Block.Types.{Block, genesis_prev_hash}
use toyblockchain.Block.Create.{new_block, new_genesis_block}
use toyblockchain.Block.Hash.{compute_hash, meets_difficulty}
use toyblockchain.Block.Merkle.{calculate_merkle_root}
use toyblockchain.Block.Mine.{MiningLimits, Event, work, receive, mine, step, worker_count}
use toyblockchain.Ledger.{apply_from, apply_block, replay, rebuild, validate_transaction}
use toyblockchain.Block.Transaction.{validate, verify_signature, verify_faucet}
use toyblockchain.Prelude.Int64.{add64}
use toyblockchain.Prelude.Int.{◌+ℤ◌}
use toyblockchain.Chain.Difficulty.{
  expected_difficulty, walk_heights, sort_rules, initial_rules, insert_rule, rules_at,
  difficulty_step, retarget_at,
}
use toyblockchain.Chain.Retarget.{should_retarget}
use toyblockchain.Block.Merkle.{reduce, leaf}
use toyblockchain.Prelude.{none, ◌>>=◌}
use toyblockchain.Chain.Difficulty.Rules.{rule_for}
use toyblockchain.Chain.Difficulty.Schedule.{expected_difficulty-suc}
use toyblockchain.Chain.Difficulty.Bounds.{IsMineable, expected_difficulty-IsMineable}
use toyblockchain.Chain.Difficulty.Setting.{set_difficulty-expected_difficulty}
use toyblockchain.Chain.Difficulty.{set_difficulty, set_rule}
use toyblockchain.Chain.Types.{Chain, RetargetConfig}
use toyblockchain.Chain.Retarget.{validate_config}
use toyblockchain.Chain.Methods.{
  batch_size, apply_pool, chain_ledger, prepare_block, check_new, initial_chain, new_with_retarget,
  with_mined, add_transaction, mine_block,
}
use toyblockchain.Chain.Validation.{validate_chain}
use toyblockchain.Chain.Validation.Exact.{IsValid, validate_chain_iff}
use toyblockchain.Chain.Growth.Live.{IsLive, add_transaction-IsLive, mine_block-IsLive}
use toyblockchain.Chain.Growth.Genesis.{new_with_retarget-IsLive}
use toyblockchain.Examples.Toy.{toy, bob, grant}

abbrev pub quick : RetargetConfig
quick = record {
  enabled = true;
  interval = pos 2;
  target_block_seconds = pos 5;
  min_difficulty = pos 1;
  max_difficulty = pos 8;
}

abbrev pub no_limits : MiningLimits
no_limits = record { max_attempts = 0; max_nonce = 0; workers = pos 1 }

-- The first nonce hits.
abbrev pub at_once : List Event
at_once = replicate 6 (work 0) ++ receive ∷ []

abbrev pub genesis : Block
genesis = record {
  height = pos 0;
  timestamp = pos 0;
  transactions = [];
  merkle_root = replicate 64 b'0';
  prev_hash = genesis_prev_hash;
  nonce = 0;
  difficulty = pos 1;
  hash = replicate 64 b'0';
}

abbrev pub fresh : Chain
fresh = initial_chain (pos 1) (pos 10) quick genesis

pub fresh-created :
    new_with_retarget toy (pos 1) (pos 0) no_limits (pos 4) at_once quick ≡ some (ok fresh)
unfolding new_with_retarget check_new validate_config new_genesis_block new_block with_mined
    worker_count mine step compute_hash meets_difficulty has_prefix hex_encode calculate_merkle_root
fresh-created = refl

abbrev pub pooled : Chain
pooled = record fresh { pending = grant bob 1 ∷ [] }

pub grant-pooled : add_transaction toy fresh (grant bob 1) ≡ ok pooled
unfolding add_transaction chain_ledger apply_pool apply_from apply_block replay rebuild
    validate_transaction validate verify_signature trim_space bytes_eq verify_faucet
grant-pooled = refl

abbrev pub first : Block
first = record {
  height = pos 1;
  timestamp = pos 100;
  transactions = grant bob 1 ∷ [];
  merkle_root = hex_encode (replicate 32 236);
  prev_hash = genesis.hash;
  nonce = 0;
  difficulty = pos 1;
  hash = replicate 64 b'0';
}

abbrev pub grown : Chain
grown = record fresh { blocks = genesis ∷ first ∷ [] }

pub first-mined :
    mine_block toy pooled (pos 100) no_limits (pos 4) at_once ≡ some (ok (grown, first))
unfolding mine_block prepare_block batch_size new_block with_mined worker_count mine step
    compute_hash meets_difficulty has_prefix hex_encode calculate_merkle_root expected_difficulty
    walk_heights sort_rules initial_rules insert_rule rules_at difficulty_step retarget_at
    should_retarget add64 ◌+ℤ◌ reduce leaf
first-mined = refl

pub fresh-IsLive : IsLive toy fresh × (fresh.pending ≡ [])
fresh-IsLive =
    new_with_retarget-IsLive toy (pos 1) (pos 0) no_limits (pos 4) at_once quick fresh
      (omega arith, omega arith) fresh-created

new_chain_example : IsLive toy fresh × (fresh.pending ≡ [])
new_chain_example =
    new_with_retarget-IsLive toy (pos 1) (pos 0) no_limits (pos 4) at_once quick fresh
      (omega arith, omega arith) fresh-created

add_transaction_example :
    IsLive toy pooled × (pooled ≡ record fresh { pending = [] ++ grant bob 1 ∷ [] })
add_transaction_example =
    add_transaction-IsLive toy fresh pooled (grant bob 1) fresh-IsLive.0 grant-pooled

pub pooled-IsLive : IsLive toy pooled
pooled-IsLive =
    (add_transaction-IsLive toy fresh pooled (grant bob 1) fresh-IsLive.0 grant-pooled).0

mine_block_example :
    IsLive toy grown
    × (grown.blocks ≡ pooled.blocks ++ first ∷ [])
    × (pooled.pending ≡ first.transactions ++ grown.pending)
unfolding worker_count
mine_block_example =
    mine_block-IsLive toy pooled grown (pos 100) no_limits (pos 4) at_once first genesis
      pooled-IsLive refl (omega arith) (omega arith) (omega arith) first-mined

validate_chain_example : (validate_chain toy grown ≡ ok tt) ↔ IsValid toy grown
validate_chain_example = validate_chain_iff toy grown

-- With a rule for height 2.
abbrev steep : Chain
steep = record grown {
  difficulty_schedule =
      grown.difficulty_schedule ++ record { start_height = pos 2; difficulty = pos 3 } ∷ [];
}

difficulty_example : expected_difficulty steep (pos 2) ≡ (
    expected_difficulty steep (pos 1) >>= λ d. elim (rule_for (pos 2) steep.difficulty_schedule) [
      | some x ↦ ok x
      | none ↦ retarget_at steep (pos 2) d
    ])
difficulty_example = expected_difficulty-suc steep 1

steep-difficulty : expected_difficulty steep (pos 2) ≡ ok (pos 3)
unfolding expected_difficulty walk_heights sort_rules initial_rules insert_rule rules_at
    difficulty_step retarget_at should_retarget
steep-difficulty = refl

difficulty_bounds_example : IsMineable (pos 3)
unfolding validate_config
difficulty_bounds_example =
    expected_difficulty-IsMineable steep 2 (pos 3) refl
      ((omega arith, omega arith), ((omega arith, omega arith), tt)) steep-difficulty

abbrev pub harder : Chain
harder = record fresh {
  difficulty_schedule =
      fresh.difficulty_schedule ++ record { start_height = pos 1; difficulty = pos 3 } ∷ [];
}

pub harder-set : set_difficulty fresh (pos 3) ≡ ok harder
unfolding set_difficulty set_rule add64 ◌+ℤ◌
harder-set = refl

harder-genesis : expected_difficulty harder (pos 0) ≡ ok (pos 1)
unfolding expected_difficulty walk_heights sort_rules initial_rules insert_rule
harder-genesis = refl

set_difficulty_example : expected_difficulty harder (pos 1) ≡ ok (pos 3)
set_difficulty_example =
    set_difficulty-expected_difficulty fresh harder (pos 3) (pos 1) genesis 0 refl refl
      (omega arith) ((λ e. cc e), tt) harder-set harder-genesis
