-- ===== src/Platform.antt =====
-- What the program takes from Go's `crypto/sha256`, `crypto/ed25519` and `encoding/json`: a parameter
-- of every definition that calls them. `json.Marshal` of these structs, whose fields are strings and
-- integers, has no error.
use toyblockchain.Prelude.{◌≡◌, Bool, true, length, drop}
use toyblockchain.Prelude.Bytes.{Bytes, IsBytes}
use toyblockchain.Block.Types.{Transaction, TransactionPayload, HashPayload}

pub record Platform : Type 0 where
  pub sha256 : Bytes → Bytes
  pub marshal_transaction : Transaction → Bytes
  pub marshal_transaction_payload : TransactionPayload → Bytes
  pub marshal_hash_payload : HashPayload → Bytes
  -- the private key that `GenerateKey` makes of a seed
  pub ed25519_new_key : Bytes → Bytes
  -- private key, message
  pub ed25519_sign : Bytes → Bytes → Bytes
  -- public key, message, signature
  pub ed25519_verify : Bytes → Bytes → Bytes → Bool

-- `PrivateKey.Public` copies the second half of the 64 bytes.
abbrev pub ed25519_public : Bytes → Bytes
ed25519_public key = drop 32 key

-- A digest is an array of 32 bytes.
pub record HasDigests (p : Platform) : Type 0 where
  pub digest-length : (s : Bytes) → length (p.sha256 s) ≡ 32
  pub digest-IsBytes : (s : Bytes) → IsBytes (p.sha256 s)

-- What Ed25519 says of the keys that it makes.
pub record HasSignatures (p : Platform) : Type 0 where
  pub key-length : (seed : Bytes) → length (p.ed25519_new_key seed) ≡ 64
  pub key-IsBytes : (seed : Bytes) → IsBytes (p.ed25519_new_key seed)
  pub signature-length : (key s : Bytes) → length (p.ed25519_sign key s) ≡ 64
  pub signature-IsBytes : (key s : Bytes) → IsBytes (p.ed25519_sign key s)
  pub verify-sign :
      (seed s : Bytes)
      → let key = p.ed25519_new_key seed in
        p.ed25519_verify (ed25519_public key) s (p.ed25519_sign key s) ≡ true
