-- ===== src/Block/Merkle.antt =====
-- Merkle roots and inclusion proofs (block/merkle.go, block/merkle_proof.go). A level is the list of
-- the hashes of one row of the tree.
pub mod Level
pub mod Inclusion
pub mod Binding
pub mod Duplicate
use toyblockchain.Prelude.{
  or_fail, ℕ, zero, suc, ◌+◌, ◌-◌, ◌/◌, ◌%◌, Bool, true, false, ◌||◌, Option, none, some, List, [],
  ◌∷◌, ◌++◌, map, leb, ◌==◌, if◌then◌else◌, length, get_or, Result, ok, err, ◌>>=◌,
}
use toyblockchain.Prelude.Int.{ℤ, pos, pos_part, ltb_ℤ, leb_ℤ}
use toyblockchain.Prelude.Bytes.{Bytes, bytes_eq, hex_encode, hex_decode}
use toyblockchain.Platform.{Platform}
use toyblockchain.Block.Types.{Transaction, ProofStep}

pub data ProofError : Type 0 where
  index_out_of_range : ℤ → ℕ → ProofError
  decoding_transaction_hash : ProofError

-- `level[index]`, which the code reads inside the bounds only
abbrev pub entry : List Bytes → ℕ → Bytes
entry level index = get_or level index []

-- An odd level gets its last hash once more.
unfoldable pub pad : List Bytes → List Bytes
pad level = if length level % 2 == 0 then level else level ++ entry level (length level - 1) ∷ []

-- The sibling of a position and whether it stands on the left.
unfoldable pub sibling : ℕ → ℕ × Bool
sibling position = if position % 2 == 0 then (position + 1, false) else (position - 1, true)

unfoldable pub sibling_step : List Bytes → ℕ → ProofStep
sibling_step level position =
    let (index, left) = sibling position in
    record { hash = hex_encode (entry level index); left = left }

module _ (p : Platform) where
  -- the loop over a padded level, two entries a round
  unfoldable pub combine : List Bytes → List Bytes
  combine [] = []
  combine (left ∷ []) = []
  combine (left ∷ right ∷ rest) = p.sha256 (left ++ right) ∷ combine rest

  unfoldable pub next_level : List Bytes → List Bytes
  unfolding combine pad
  next_level level = combine (pad level)

  -- `for len(level) > 1`
  unfoldable pub reduce : ℕ → List Bytes → List Bytes
  reduce zero level = level
  reduce (suc fuel) level =
      let rest = reduce fuel (next_level level) in if leb (length level) 1 then level else rest

  unfoldable pub leaf : Transaction → Bytes
  leaf tx = p.sha256 (p.marshal_transaction tx)

  unfoldable pub transaction_hash : Transaction → Bytes
  transaction_hash tx = hex_encode (p.sha256 (p.marshal_transaction tx))

  -- A level of n hashes is reduced in fewer than n rounds.
  unfoldable pub calculate_merkle_root : List Transaction → Bytes
  calculate_merkle_root [] = hex_encode (p.sha256 [])
  calculate_merkle_root (tx ∷ txs) =
      let level = map leaf (tx ∷ txs) in hex_encode (entry (reduce (length level) level) 0)

  unfoldable pub decode_leaves : List Transaction → Result ProofError (List Bytes)
  decode_leaves [] = ok []
  decode_leaves (tx ∷ txs) = do
    bytes ← or_fail (hex_decode (transaction_hash tx)) decoding_transaction_hash
    rest ← decode_leaves txs
    ok (bytes ∷ rest)

  -- the loop of `GenerateMerkleProof`
  unfoldable pub climb : ℕ → List Bytes → ℕ → List ProofStep
  unfolding next_level sibling_step
  climb zero level position = []
  climb (suc fuel) level position =
      let rest = sibling_step (pad level) position ∷ climb fuel (next_level level) (position / 2) in
      if leb (length level) 1 then [] else rest

  unfoldable pub generate_merkle_proof : List Transaction → ℤ → Result ProofError (List ProofStep)
  generate_merkle_proof transactions index =
      if ltb_ℤ index (pos 0) || leb_ℤ (pos (length transactions)) index
      then err (index_out_of_range index (length transactions))
      else (decode_leaves transactions >>= λ level.
          ok (climb (length level) level (pos_part index)))

  unfoldable pub fold_step : Bytes → Bytes → Bool → Bytes
  fold_step current sibling true = p.sha256 (sibling ++ current)
  fold_step current sibling false = p.sha256 (current ++ sibling)

  -- the loop of `VerifyMerkleProof`; `none` is its early `return false`
  unfoldable pub fold_proof : Bytes → List ProofStep → Option Bytes
  fold_proof current [] = some current
  fold_proof current (step ∷ steps) = elim (hex_decode step.hash) [
    | none ↦ none
    | some sibling ↦ fold_proof (fold_step current sibling step.left) steps
  ]

  unfoldable pub verify_merkle_proof : Bytes → List ProofStep → Bytes → Bool
  verify_merkle_proof transaction_hash proof root = elim (hex_decode transaction_hash) [
    | none ↦ false
    | some leaf ↦ elim (fold_proof leaf proof) [
      | none ↦ false
      | some current ↦ bytes_eq (hex_encode current) root
    ]
  ]
