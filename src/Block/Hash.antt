-- ===== src/Block/Hash.antt =====
-- Block hashes (block/block.go, `ComputeHash` and `MeetsDifficulty`).
use toyblockchain.Prelude.{Bool, false, ◌||◌, if◌then◌else◌, replicate}
use toyblockchain.Prelude.Int.{ℤ, pos, pos_part, ltb_ℤ}
use toyblockchain.Prelude.Bytes.{Bytes, hex_encode, has_prefix}
use toyblockchain.Platform.{Platform}
use toyblockchain.Block.Types.{Block, HashPayload}

abbrev pub hash_payload : Block → HashPayload
hash_payload b = record {
  height = b.height;
  timestamp = b.timestamp;
  merkle_root = b.merkle_root;
  prev_hash = b.prev_hash;
  nonce = b.nonce;
  difficulty = b.difficulty;
}

unfoldable pub compute_hash : Platform → Block → Bytes
compute_hash p b = hex_encode (p.sha256 (p.marshal_hash_payload (hash_payload b)))

-- `sha256.Size*2` is 64; `strings.Repeat` of one byte is `replicate`.
unfoldable pub meets_difficulty : Bytes → ℤ → Bool
meets_difficulty hash difficulty =
    if ltb_ℤ difficulty (pos 0) || ltb_ℤ (pos 64) difficulty
    then false
    else has_prefix hash (replicate (pos_part difficulty) b'0')
