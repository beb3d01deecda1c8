-- ===== src/Ledger.antt =====
-- Balances and nonces by replay of the transactions (ledger/ledger.go). A method on `*Ledger` that
-- changes it returns the new ledger beside its error.
pub mod Accounts
pub mod Supply
pub mod Overflow
pub mod Nonces
use toyblockchain.Prelude.{
  ℕ, ◌+◌, ◌==◌, not, Bool, List, [], ◌∷◌, if◌then◌else◌, Result, ok, err, fail_if, wrap_err, ◌>>=◌,
  ◌>>◌,
}
use toyblockchain.Prelude.Int.{ℤ, pos, ltb_ℤ}
use toyblockchain.Prelude.Int64.{add64, sub64, u64}
use toyblockchain.Prelude.Bytes.{Bytes, bytes_eq}
use toyblockchain.Prelude.Dict.{Dict, index, insert}
use toyblockchain.Platform.{Platform}
use toyblockchain.Block.Types.{Transaction, Block, faucet_account}
use toyblockchain.Block.Transaction.{TransactionError, validate}

pub record Ledger : Type 0 where
  pub balances : Dict ℤ
  pub nonces : Dict ℕ

pub data LedgerError : Type 0 where
  invalid_transaction : TransactionError → LedgerError
  -- sender, got, want
  invalid_nonce : Bytes → ℕ → ℕ → LedgerError
  -- sender, balance, amount
  insufficient_balance : Bytes → ℤ → ℤ → LedgerError
  -- `block %d tx %d: %w`
  in_block : ℤ → ℕ → LedgerError → LedgerError

-- `New`
abbrev pub new : Ledger
new = record { balances = []; nonces = [] }

unfoldable pub balance : Ledger → Bytes → ℤ
balance l account = index l.balances account (pos 0)

-- `l.nonces[account]`
unfoldable pub last_nonce : Ledger → Bytes → ℕ
last_nonce l account = index l.nonces account 0

unfoldable pub next_nonce : Ledger → Bytes → ℕ
next_nonce l account = u64 (last_nonce l account + 1)

-- What a transaction takes from its sender.
unfoldable pub debit : Ledger → Transaction → Ledger
debit l tx = record {
  balances = insert tx.sender (sub64 (balance l tx.sender) tx.amount) l.balances;
  nonces = insert tx.sender tx.nonce l.nonces;
}

unfoldable pub credit : Ledger → Transaction → Ledger
credit l tx = record l {
  balances = insert tx.recipient (add64 (balance l tx.recipient) tx.amount) l.balances;
}

-- The writes of `Apply`.
unfoldable pub transfer : Ledger → Transaction → Ledger
transfer l tx = credit (if bytes_eq tx.sender faucet_account then l else debit l tx) tx

module _ (p : Platform) where
  -- the checks of `ValidateTransaction` that are made of signed transactions only
  unfoldable pub check_account : Ledger → Transaction → Result LedgerError (Unit {0})
  check_account l tx = do
    fail_if (not (tx.nonce == next_nonce l tx.sender))
        (invalid_nonce tx.sender tx.nonce (next_nonce l tx.sender))
    fail_if (ltb_ℤ (balance l tx.sender) tx.amount)
        (insufficient_balance tx.sender (balance l tx.sender) tx.amount)

  unfoldable pub validate_transaction : Ledger → Transaction → Result LedgerError (Unit {0})
  validate_transaction l tx = do
    wrap_err invalid_transaction (validate p tx)
    if bytes_eq tx.sender faucet_account then ok tt else check_account l tx

  unfoldable pub apply : Ledger → Transaction → Ledger × Result LedgerError (Unit {0})
  apply l tx = elim (validate_transaction l tx) [
    | err e ↦ (l, err e)
    | ok _ ↦ (transfer l tx, ok tt)
  ]

  -- the loop of `ApplyBlock` from an index on
  unfoldable pub apply_from :
      ℤ → ℕ → List Transaction → Ledger → Ledger × Result LedgerError (Unit {0})
  apply_from height i [] l = (l, ok tt)
  apply_from height i (tx ∷ txs) l =
      let (l', r) = apply l tx in
      elim r [ err e ↦ (l', err (in_block height i e)) | ok _ ↦ apply_from height (i + 1) txs l' ]

  unfoldable pub apply_block : Ledger → Block → Ledger × Result LedgerError (Unit {0})
  apply_block l b = apply_from b.height 0 b.transactions l

  -- the loop of `Rebuild`, which drops the ledger on an error
  unfoldable pub replay : List Block → Ledger → Result LedgerError Ledger
  replay [] l = ok l
  replay (b ∷ bs) l =
      let (l', r) = apply_block l b in elim r [ err e ↦ err e | ok _ ↦ replay bs l' ]

  unfoldable pub rebuild : List Block → Result LedgerError Ledger
  rebuild bs = replay bs new
