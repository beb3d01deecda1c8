-- ===== src/Chain/Validation.antt =====
-- `Chain.Validate` (chain/chain.go).
pub mod Exact
use toyblockchain.Prelude.{
  is_empty, not, Option, none, some, List, [], ◌∷◌, Result, ok, err, fail_if, wrap_err, ◌>>=◌, ◌>>◌,
}
use toyblockchain.Prelude.Int.{ℤ, pos, negsuc, ltb_ℤ, eqb_ℤ}
use toyblockchain.Prelude.Int64.{add64}
use toyblockchain.Prelude.Bytes.{bytes_eq}
use toyblockchain.Platform.{Platform}
use toyblockchain.Block.Types.{Block, genesis_prev_hash}
use toyblockchain.Block.Hash.{compute_hash, meets_difficulty}
use toyblockchain.Block.Merkle.{calculate_merkle_root}
use toyblockchain.Ledger.{Ledger, apply_block, new}
use toyblockchain.Chain.Types.{
  Chain, ChainError, invalid, empty_chain, empty_schedule, invalid_retarget, wrong_difficulty,
  wrong_merkle_root, wrong_hash, too_little_work, wrong_genesis_height, wrong_genesis_previous_hash,
  wrong_height, early_timestamp, wrong_previous_hash, invalid_transactions,
}
use toyblockchain.Chain.Retarget.{validate_config}
use toyblockchain.Chain.Difficulty.{expected_difficulty}

-- The branches on the index: the first block has no previous one.
unfoldable pub check_link : Option Block → Block → Result ChainError (Unit {0})
check_link none b = do
  fail_if (not (eqb_ℤ b.height (pos 0))) (invalid b.height wrong_genesis_height)
  fail_if (not (bytes_eq b.prev_hash genesis_prev_hash))
      (invalid b.height wrong_genesis_previous_hash)
check_link (some previous) b = do
  fail_if (not (eqb_ℤ b.height (add64 previous.height (pos 1)))) (invalid b.height wrong_height)
  fail_if (ltb_ℤ b.timestamp previous.timestamp) (invalid b.height early_timestamp)
  fail_if (not (bytes_eq b.prev_hash previous.hash)) (invalid b.height wrong_previous_hash)

module _ (p : Platform) where
  -- the checks of one block with the difficulty that is expected of it
  unfoldable pub check_seal : ℤ → Block → Result ChainError (Unit {0})
  check_seal expected b = do
    fail_if (not (eqb_ℤ b.difficulty expected))
        (invalid b.height (wrong_difficulty b.difficulty expected))
    fail_if (not (bytes_eq b.merkle_root (calculate_merkle_root p b.transactions)))
        (invalid b.height wrong_merkle_root)
    fail_if (not (bytes_eq (compute_hash p b) b.hash)) (invalid b.height wrong_hash)
    fail_if (not (meets_difficulty b.hash expected)) (invalid b.height too_little_work)

  unfoldable pub check_block : Chain → Option Block → Block → Result ChainError (Unit {0})
  check_block c previous b = do
    expected ← expected_difficulty c b.height
    check_seal expected b
    check_link previous b

  -- the loop over the blocks
  unfoldable pub check_blocks :
      Chain → Option Block → List Block → Ledger → Result ChainError (Unit {0})
  check_blocks c previous [] l = ok tt
  check_blocks c previous (b ∷ bs) l =
      let (l', r) = apply_block p l b in
      do
        check_block c previous b
        wrap_err (λ e. invalid b.height (invalid_transactions e)) r
        check_blocks c (some b) bs l'

  -- `Chain.Validate`
  unfoldable pub validate_chain : Chain → Result ChainError (Unit {0})
  validate_chain c = do
    fail_if (is_empty c.blocks) (invalid (negsuc 0) empty_chain)
    fail_if (is_empty c.difficulty_schedule) (invalid (negsuc 0) empty_schedule)
    wrap_err (λ e. invalid (negsuc 0) (invalid_retarget e)) (validate_config c.retarget)
    check_blocks c none c.blocks new
