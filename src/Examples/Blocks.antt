-- ===== src/Examples/Blocks.antt =====
-- The theorems of the package block at concrete inputs.
use toyblockchain.Prelude.{
  ◌%◌, ◌+◌, ◌*◌, ◌≡◌, ◌↔◌, refl, true, List, [], ◌∷◌, ◌++◌, arith, ok, replicate,
}
use toyblockchain.Prelude.Int.{pos}
use toyblockchain.Prelude.Bytes.{Bytes, codes, hex_encode, hex_decode, trim_space, bytes_eq}
use toyblockchain.Block.Types.{Transaction, ProofStep}
use toyblockchain.Block.Transaction.{sign, validate, verify_signature, address_from_public_key}
use toyblockchain.Block.Transaction.Ownership.{
  IsOwned, IsWellFormed, IsAuthorised, verify_signature_iff, validate_iff,
}
use toyblockchain.Block.Transaction.Signing.{validate-sign}
use toyblockchain.Block.Merkle.{
  fold_step, fold_proof, transaction_hash, calculate_merkle_root, generate_merkle_proof,
  verify_merkle_proof,
}
use toyblockchain.Block.Merkle.Inclusion.{verify_merkle_proof-generate_merkle_proof}
use toyblockchain.Block.Merkle.Binding.{siblings, verify_merkle_proof_binding}
use toyblockchain.Block.Merkle.Duplicate.{calculate_merkle_root-repeat_last}
use toyblockchain.Platform.{ed25519_public}
use toyblockchain.Examples.Toy.{toy, toy-HasDigests, toy-HasSignatures, alice, bob, grant}

abbrev three : List Transaction
three = grant alice 1 ∷ grant bob 2 ∷ grant alice 3 ∷ []

merkle_inclusion_example :
    (proof : List ProofStep) × (generate_merkle_proof toy three (pos 2) ≡ ok proof)
    × (verify_merkle_proof toy
          (transaction_hash toy (grant alice 3))
          proof
          (calculate_merkle_root toy three)
        ≡ true)
merkle_inclusion_example =
    verify_merkle_proof-generate_merkle_proof toy toy-HasDigests three 2 (grant alice 3) refl

merkle_repeat_example :
    calculate_merkle_root toy
      ((grant alice 1 ∷ grant bob 2 ∷ []) ++ grant alice 3 ∷ grant alice 3 ∷ [])
    ≡ calculate_merkle_root toy ((grant alice 1 ∷ grant bob 2 ∷ []) ++ grant alice 3 ∷ [])
merkle_repeat_example =
    calculate_merkle_root-repeat_last toy (grant alice 1 ∷ grant bob 2 ∷ []) (grant alice 3) refl
      (omega arith)

abbrev opening : List ProofStep
opening = record { hash = hex_encode (replicate 32 7); left = true } ∷ []

abbrev opened_root : Bytes
opened_root = hex_encode (replicate 32 ((32 * 7 + 32 * 5) % 256))

abbrev opened_leaf : Bytes
opened_leaf = replicate 32 5

merkle_binding_example : (opened_leaf ≡ opened_leaf) × (siblings toy opening ≡ siblings toy opening)
unfolding verify_merkle_proof fold_proof fold_step hex_encode hex_decode bytes_eq
merkle_binding_example =
    verify_merkle_proof_binding toy toy-HasDigests (hex_encode opened_leaf) (hex_encode opened_leaf)
      opened_root opened_leaf opened_leaf opening opening refl refl refl refl
      (λ x y hx hy. (λ _. cc, tt)) refl refl

abbrev seed : Bytes
seed = codes "seed"

abbrev key : Bytes
key = toy.ed25519_new_key seed

abbrev draft : Transaction
draft = record {
  sender = [];
  recipient = bob;
  amount = pos 5;
  nonce = 1;
  public_key = [];
  signature = [];
}

signing_example :
    (t : Transaction) × (sign toy draft key ≡ ok t)
    × (validate toy t ≡ ok tt)
    × (t.sender ≡ address_from_public_key toy (ed25519_public key))
    × (t.recipient ≡ bob)
    × (t.amount ≡ pos 5)
    × (t.nonce ≡ 1)
unfolding address_from_public_key hex_encode trim_space
signing_example =
    validate-sign toy toy-HasDigests toy-HasSignatures seed draft (omega arith) refl (λ e. cc)
      (omega arith)

-- A grant from the faucet under the name of a signed sender.
abbrev forged : Transaction
forged = record draft { sender = alice }

ownership_example : (verify_signature toy forged ≡ ok tt) ↔ IsOwned toy forged
unfolding bytes_eq
ownership_example = verify_signature_iff toy forged refl

validate_example :
    (validate toy (grant bob 7) ≡ ok tt)
    ↔ (IsWellFormed toy (grant bob 7) × IsAuthorised toy (grant bob 7))
validate_example = validate_iff toy (grant bob 7)
