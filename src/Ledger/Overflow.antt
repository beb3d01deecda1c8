-- ===== src/Ledger/Overflow.antt =====
-- Where the supply passes the range of `int64` a balance wraps around.
use toyblockchain.Prelude.{ℕ, ◌+◌, ◌≤◌, ◌<◌, ◌^◌, ◌≡◌, refl, true, ok, arith}
use toyblockchain.Prelude.Int.{ℤ, pos, pos_part, ◌+ℤ◌, ◌<ℤ◌}
use toyblockchain.Prelude.Int64.{IsInt64, add64}
use toyblockchain.Prelude.Bytes.{bytes_eq_refl}
use toyblockchain.Platform.{Platform}
use toyblockchain.Block.Types.{Transaction}
use toyblockchain.Block.Transaction.{validate}
use toyblockchain.Ledger.{Ledger, balance, apply, validate_transaction}
use toyblockchain.Ledger.Accounts.{is_faucet, validate-IsSound, balance-transfer}

add64_overflow :
    (a : ℕ) (b : ℤ) → a < 2 ^ 63 → IsInt64 b → 2 ^ 63 ≤ a + pos_part b → add64 (pos a) b <ℤ pos 0
unfolding add64 ◌+ℤ◌
add64_overflow a b small range big = ground arith

-- A faucet grant that takes the balance of its recipient past the greatest `int64` is accepted, and
-- leaves the recipient with a negative balance.
pub faucet_overflow :
    (p : Platform) (l : Ledger) (tx : Transaction) (b : ℕ)
    → validate p tx ≡ ok tt
    → is_faucet tx ≡ true
    → IsInt64 tx.amount
    → balance l tx.recipient ≡ pos b
    → b < 2 ^ 63
    → 2 ^ 63 ≤ b + pos_part tx.amount
    → ((apply p l tx).1 ≡ ok tt) × (balance (apply p l tx).0 tx.recipient <ℤ pos 0)
unfolding apply validate_transaction
faucet_overflow p l tx b valid faucet range held small big =
    rw (valid, faucet, apply)
      (
        refl,
        rw
            (
              balance-transfer l tx tx.recipient (validate-IsSound p tx valid).distinct,
              bytes_eq_refl tx.recipient,
              held,
            )
            (add64_overflow b tx.amount small range big),
      )
