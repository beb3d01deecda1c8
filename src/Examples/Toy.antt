-- ===== src/Examples/Toy.antt =====
-- A platform that computes: the hash of a text is 32 copies of the sum of its bytes modulo 256.
use toyblockchain.Prelude.{
  ℕ, ◌+◌, ◌%◌, ◌<◌, refl, true, [], ◌∷◌, ◌++◌, zero, suc, arith, replicate, length-replicate,
}
use toyblockchain.Prelude.Int.{pos_part}
use toyblockchain.Prelude.Bytes.{Bytes, IsBytes, codes}
use toyblockchain.Platform.{Platform, HasDigests, HasSignatures}
use toyblockchain.Block.Types.{Transaction, faucet_account}
use toyblockchain.Prelude.Int.{pos}

abbrev pub byte_sum : Bytes → ℕ
byte_sum [] = 0
byte_sum (b ∷ s) = b + byte_sum s

abbrev pub toy_hash : Bytes → Bytes
toy_hash s = replicate 32 (byte_sum s % 256)

abbrev pub toy : Platform
toy = record {
  sha256 = toy_hash;
  marshal_transaction = λ t. t.sender ++ t.recipient ++ pos_part t.amount ∷ t.nonce ∷ [];
  marshal_transaction_payload = λ t. t.sender ++ t.recipient ++ pos_part t.amount ∷ t.nonce ∷ [];
  marshal_hash_payload = λ h. h.merkle_root ++ h.prev_hash ++ h.nonce ∷ [];
  ed25519_new_key = λ seed. replicate 64 (byte_sum seed % 256);
  ed25519_sign = λ key s. replicate 64 (byte_sum s % 256);
  ed25519_verify = λ key s signature. true;
}

replicate-IsBytes : (n b : ℕ) → b < 256 → IsBytes (replicate n b)
replicate-IsBytes zero b h = tt
replicate-IsBytes (suc n) b h = (h, replicate-IsBytes n b h)

pub toy-HasDigests : HasDigests toy
toy-HasDigests = record {
  digest-length = λ s. length-replicate 32 (byte_sum s % 256);
  digest-IsBytes = λ s. replicate-IsBytes 32 (byte_sum s % 256) (omega arith);
}

pub toy-HasSignatures : HasSignatures toy
toy-HasSignatures = record {
  key-length = λ seed. length-replicate 64 (byte_sum seed % 256);
  key-IsBytes = λ seed. replicate-IsBytes 64 (byte_sum seed % 256) (omega arith);
  signature-length = λ key s. length-replicate 64 (byte_sum s % 256);
  signature-IsBytes = λ key s. replicate-IsBytes 64 (byte_sum s % 256) (omega arith);
  verify-sign = λ seed s. refl;
}

abbrev pub alice : Bytes
alice = codes "alice"

abbrev pub bob : Bytes
bob = codes "bob"

abbrev pub grant : Bytes → ℕ → Transaction
grant account n = record {
  sender = faucet_account;
  recipient = account;
  amount = pos n;
  nonce = 0;
  public_key = [];
  signature = [];
}
