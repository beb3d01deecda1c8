-- ===== src/Examples/Ledgers.antt =====
-- The theorems of the package ledger at concrete inputs.
use toyblockchain.Prelude.{
  ◌-◌, ◌%◌, ◌*◌, ◌+◌, ◌<◌, ◌^◌, ◌≡◌, refl, [], ◌∷◌, arith, ok, err, replicate,
}
use toyblockchain.Prelude.Int.{pos, ◌≤ℤ◌, ◌<ℤ◌}
use toyblockchain.Prelude.Bytes.{Bytes, codes, bytes_eq, trim_space, hex_encode, hex_decode}
use toyblockchain.Prelude.Int64.{add64, sub64}
use toyblockchain.Prelude.Int.{◌+ℤ◌, ◌-ℤ◌}
use toyblockchain.Prelude.Dict.{index, insert}
use toyblockchain.Block.Types.{Block, Transaction, genesis_prev_hash}
use toyblockchain.Block.Transaction.{
  decode_sized, verify_signed, verify_faucet, validate, address_from_public_key, signing_bytes,
  verify_signature,
}
use toyblockchain.Ledger.{
  replay, debit, credit, transfer, check_account, Ledger, new, balance, last_nonce, next_nonce,
  apply, apply_from, apply_block, rebuild, validate_transaction, invalid_nonce,
}
use toyblockchain.Ledger.Supply.{total, minted_blocks, rebuild_conserves}
use toyblockchain.Ledger.Nonces.{signed_by, last_nonce-apply_from, apply-rejects_replay}
use toyblockchain.Ledger.Overflow.{faucet_overflow}
use toyblockchain.Examples.Toy.{byte_sum, toy, bob, grant}

abbrev key : Bytes
key = toy.ed25519_new_key (codes "seed")

-- The address of the key.
abbrev carol : Bytes
carol = hex_encode (replicate 20 ((32 * byte_sum (codes "seed")) % 256))

abbrev payment : Transaction
payment = record {
  sender = carol;
  recipient = bob;
  amount = pos 5;
  nonce = 1;
  public_key = hex_encode (replicate 32 (byte_sum (codes "seed") % 256));
  signature = hex_encode (replicate 64 1);
}

-- The ledger after a grant to carol, and after her payment too.
abbrev granted : Ledger
granted = record { balances = (carol, pos 9) ∷ []; nonces = [] }

abbrev paid : Ledger
paid = record { balances = (carol, pos 4) ∷ (bob, pos 5) ∷ []; nonces = (carol, 1) ∷ [] }

grant-accepted : apply toy new (grant carol 9) ≡ (granted, ok tt)
unfolding apply_from apply validate_transaction validate verify_signature trim_space bytes_eq
    hex_encode hex_decode address_from_public_key verify_faucet verify_signed decode_sized
    check_account next_nonce last_nonce index insert transfer credit debit balance add64 sub64 ◌+ℤ◌
    ◌-ℤ◌ signing_bytes
grant-accepted = refl

payment-accepted : apply toy granted payment ≡ (paid, ok tt)
unfolding apply_from apply validate_transaction validate verify_signature trim_space bytes_eq
    hex_encode hex_decode address_from_public_key verify_faucet verify_signed decode_sized
    check_account next_nonce last_nonce index insert transfer credit debit balance add64 sub64 ◌+ℤ◌
    ◌-ℤ◌ signing_bytes
payment-accepted = refl

batch-accepted : apply_from toy (pos 1) 0 (grant carol 9 ∷ payment ∷ []) new ≡ (paid, ok tt)
unfolding apply_from apply validate_transaction validate verify_signature trim_space bytes_eq
    hex_encode hex_decode address_from_public_key verify_faucet verify_signed decode_sized
    check_account next_nonce last_nonce index insert transfer credit debit balance add64 sub64 ◌+ℤ◌
    ◌-ℤ◌ signing_bytes
batch-accepted = refl

abbrev first_block : Block
first_block = record {
  height = pos 1;
  timestamp = pos 100;
  transactions = grant carol 9 ∷ payment ∷ [];
  merkle_root = [];
  prev_hash = genesis_prev_hash;
  nonce = 0;
  difficulty = pos 1;
  hash = [];
}

rebuild-accepted : rebuild toy (first_block ∷ []) ≡ ok paid
unfolding apply_from apply validate_transaction validate verify_signature trim_space bytes_eq
    hex_encode hex_decode address_from_public_key verify_faucet verify_signed decode_sized
    check_account next_nonce last_nonce index insert transfer credit debit balance add64 sub64 ◌+ℤ◌
    ◌-ℤ◌ signing_bytes rebuild replay apply_block
rebuild-accepted = refl

conservation_example :
    (total paid.balances ≡ minted_blocks toy (first_block ∷ []))
    × ((a : Bytes)
        → (pos 0 ≤ℤ balance paid a)
          × (balance paid a ≤ℤ pos (minted_blocks toy (first_block ∷ []))))
unfolding bytes_eq hex_encode
conservation_example = rebuild_conserves toy (first_block ∷ []) paid (omega arith) rebuild-accepted

nonce_count_example :
    (last_nonce paid carol
      ≡ last_nonce new carol + signed_by toy carol (grant carol 9 ∷ payment ∷ []))
    × (last_nonce paid carol < 2 ^ 64)
unfolding last_nonce index
nonce_count_example =
    last_nonce-apply_from toy (pos 1) 0 (grant carol 9 ∷ payment ∷ []) new paid carol
      (λ a. omega arith) batch-accepted

granted-IsU64 : (a : Bytes) → last_nonce granted a < 2 ^ 64
unfolding last_nonce index
granted-IsU64 a = omega arith

replay_example :
    apply toy paid payment ≡ (paid, err (invalid_nonce carol 1 (next_nonce paid carol)))
unfolding apply_from bytes_eq hex_encode
replay_example =
    apply-rejects_replay toy granted paid paid payment (pos 1) 0 [] granted-IsU64 refl
      payment-accepted refl

abbrev rich : Ledger
rich = record { balances = (bob, pos (2 ^ 63 - 1)) ∷ []; nonces = [] }

overflow_example :
    ((apply toy rich (grant bob 1)).1 ≡ ok tt)
    × (balance (apply toy rich (grant bob 1)).0 bob <ℤ pos 0)
unfolding apply_from apply validate_transaction validate verify_signature trim_space bytes_eq
    hex_encode hex_decode address_from_public_key verify_faucet verify_signed decode_sized
    check_account next_nonce last_nonce index insert transfer credit debit balance add64 sub64 ◌+ℤ◌
    ◌-ℤ◌ signing_bytes
overflow_example =
    faucet_overflow toy rich (grant bob 1) (2 ^ 63 - 1) refl refl (omega arith) refl (omega arith)
      (omega arith)
