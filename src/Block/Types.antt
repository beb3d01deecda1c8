-- ===== src/Block/Types.antt =====
-- The structs of block/block.go and block/merkle_proof.go. `int` and `int64` fields are integers,
-- `uint64` fields are numbers, and strings are lists of bytes.
use toyblockchain.Prelude.{ℕ, Bool, List, replicate}
use toyblockchain.Prelude.Int.{ℤ}
use toyblockchain.Prelude.Bytes.{Bytes, codes}

pub record Transaction : Type 0 where
  pub sender : Bytes
  pub recipient : Bytes
  pub amount : ℤ
  pub nonce : ℕ
  pub public_key : Bytes
  pub signature : Bytes

pub record TransactionPayload : Type 0 where
  pub sender : Bytes
  pub recipient : Bytes
  pub amount : ℤ
  pub nonce : ℕ

pub record Block : Type 0 where
  pub height : ℤ
  pub timestamp : ℤ
  pub transactions : List Transaction
  pub merkle_root : Bytes
  pub prev_hash : Bytes
  pub nonce : ℕ
  pub difficulty : ℤ
  pub hash : Bytes

pub record HashPayload : Type 0 where
  pub height : ℤ
  pub timestamp : ℤ
  pub merkle_root : Bytes
  pub prev_hash : Bytes
  pub nonce : ℕ
  pub difficulty : ℤ

pub record ProofStep : Type 0 where
  pub hash : Bytes
  pub left : Bool

abbrev pub genesis_prev_hash : Bytes
genesis_prev_hash = replicate 64 b'0'

abbrev pub faucet_account : Bytes
faucet_account = codes "FAUCET"
