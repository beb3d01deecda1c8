-- ===== src/Block/Transaction.antt =====
-- Signing, verifying and checking transactions (block/block.go, `Transaction` and its methods).
pub mod Ownership
pub mod Signing
use toyblockchain.Prelude.{
  or_fail, false, true, ℕ, Bool, not, ◌||◌, [], ◌∷◌, ◌==◌, if◌then◌else◌, length, take, Result, ok,
  err, fail_if, ◌>>=◌, ◌>>◌,
}
use toyblockchain.Prelude.Int.{ℤ, pos, leb_ℤ}
use toyblockchain.Prelude.Bytes.{Bytes, bytes_eq, hex_encode, hex_decode, trim_space}
use toyblockchain.Platform.{Platform, ed25519_public}
use toyblockchain.Block.Types.{Transaction, TransactionPayload, faucet_account}

-- The messages that `Sign`, `VerifySignature` and `Validate` return as errors.
pub data TransactionError : Type 0 where
  invalid_key_length : ℕ → TransactionError
  faucet_signed : TransactionError
  invalid_public_key : TransactionError
  invalid_signature_encoding : TransactionError
  wrong_owner : TransactionError
  verification_failed : TransactionError
  amount_not_positive : ℤ → TransactionError
  empty_sender : TransactionError
  empty_recipient : TransactionError
  same_parties : TransactionError
  faucet_nonce : TransactionError
  zero_nonce : TransactionError

abbrev pub public_key_size : ℕ
public_key_size = 32

abbrev pub private_key_size : ℕ
private_key_size = 64

abbrev pub signature_size : ℕ
signature_size = 64

abbrev pub is_empty : Bytes → Bool
is_empty [] = true
is_empty (_ ∷ _) = false

abbrev pub payload : Transaction → TransactionPayload
payload t = record {
  sender = t.sender;
  recipient = t.recipient;
  amount = t.amount;
  nonce = t.nonce;
}

-- A hexadecimal field of a given number of bytes.
unfoldable pub decode_sized : ℕ → Bytes → TransactionError → Result TransactionError Bytes
decode_sized size s e = do
  bytes ← or_fail (hex_decode s) e
  fail_if (not (length bytes == size)) e
  ok bytes

module _ (p : Platform) where
  unfoldable pub signing_bytes : Transaction → Bytes
  signing_bytes t = p.marshal_transaction_payload (payload t)

  unfoldable pub address_from_public_key : Bytes → Bytes
  address_from_public_key public_key = hex_encode (take 20 (p.sha256 public_key))

  -- `t` with the sender and the public key that `Sign` writes
  unfoldable pub claim_sender : Transaction → Bytes → Transaction
  claim_sender t public_key = record t {
    sender = address_from_public_key public_key;
    public_key = hex_encode public_key;
  }

  -- An error leaves the transaction as it was.
  unfoldable pub sign : Transaction → Bytes → Result TransactionError Transaction
  sign t private_key =
      let claimed = claim_sender t (ed25519_public private_key) in
      if not (length private_key == private_key_size)
      then err (invalid_key_length (length private_key))
      else ok (record claimed {
        signature = hex_encode (p.ed25519_sign private_key (signing_bytes claimed));
      })

  unfoldable pub verify_faucet : Transaction → Result TransactionError (Unit {0})
  verify_faucet t =
      fail_if (not (is_empty t.public_key) || not (is_empty t.signature)) faucet_signed

  unfoldable pub verify_signed : Transaction → Result TransactionError (Unit {0})
  verify_signed t = do
    public_key ← decode_sized public_key_size t.public_key invalid_public_key
    signature ← decode_sized signature_size t.signature invalid_signature_encoding
    fail_if (not (bytes_eq (address_from_public_key public_key) t.sender)) wrong_owner
    fail_if (not (p.ed25519_verify public_key (signing_bytes t) signature)) verification_failed

  unfoldable pub verify_signature : Transaction → Result TransactionError (Unit {0})
  verify_signature t = if bytes_eq t.sender faucet_account then verify_faucet t else verify_signed t

  unfoldable pub validate : Transaction → Result TransactionError (Unit {0})
  validate t = do
    fail_if (leb_ℤ t.amount (pos 0)) (amount_not_positive t.amount)
    fail_if (is_empty (trim_space t.sender)) empty_sender
    fail_if (is_empty (trim_space t.recipient)) empty_recipient
    fail_if (bytes_eq t.sender t.recipient) same_parties
    if bytes_eq t.sender faucet_account
        then fail_if (not (t.nonce == 0)) faucet_nonce >> verify_signature t
        else fail_if (t.nonce == 0) zero_nonce >> verify_signature t
