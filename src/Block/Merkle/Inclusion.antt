-- ===== src/Block/Merkle/Inclusion.antt =====
-- A generated proof verifies against the root of the same transactions.
use toyblockchain.Prelude.{
  get_or_of_get_elem?, ap, lt-length_of_get_elem?, get_elem?, ◌∙◌, ℕ, zero, suc, ◌/◌, ◌≤◌, ◌<◌, ◌≡◌,
  refl, inl, inr, true, some, List, [], ◌∷◌, arith, map, leb, length, length-map, get_or-map, All,
  All-map, All-get_or, Bool-cases, ok,
}
use toyblockchain.Prelude.Int.{pos}
use toyblockchain.Prelude.Bytes.{
  Bytes, IsBytes, hex_encode, hex_decode, hex_decode-hex_encode, bytes_eq_refl,
}
use toyblockchain.Platform.{Platform, HasDigests}
use toyblockchain.Block.Types.{Transaction}
use toyblockchain.Block.Merkle.{
  ProofStep, entry, pad, sibling, sibling_step, next_level, reduce, leaf, transaction_hash,
  calculate_merkle_root, decode_leaves, climb, generate_merkle_proof, fold_step, fold_proof,
  verify_merkle_proof,
}
use toyblockchain.Block.Merkle.Level.{
  length-next_level, entry-next_level, entry-pad, pad-IsBytes, next_level-IsBytes,
}

module _ (p : Platform) (d : HasDigests p) where
  -- Hashing an entry with its sibling gives the entry above both.
  fold_step-sibling :
      (level : List Bytes) (i : ℕ)
      → i < length level
      → fold_step p (entry level i) (entry (pad level) (sibling i).0) (sibling i).1
        ≡ entry (next_level p level) (i / 2)
  unfolding fold_step sibling
  fold_step-sibling level i h =
      ground (arith, entry-next_level p level (i / 2), entry-pad level i h)

  fold_proof-cons :
      (current sibling : Bytes) (step : ProofStep) (steps : List ProofStep)
      → hex_decode step.hash ≡ some sibling
      → fold_proof p current (step ∷ steps)
        ≡ fold_proof p (fold_step p current sibling step.left) steps
  unfolding fold_proof
  fold_proof-cons current sibling step steps e = rw (e, fold_proof)

  decode-sibling_step :
      (level : List Bytes) (i : ℕ)
      → All IsBytes level
      → hex_decode (sibling_step (pad level) i).hash ≡ some (entry (pad level) (sibling i).0)
  unfolding sibling_step
  decode-sibling_step level i b =
      hex_decode-hex_encode _
        (All-get_or IsBytes (pad level) (sibling i).0 [] (pad-IsBytes level b) tt)

  fold_proof-climb :
      (fuel : ℕ) (level : List Bytes) (i : ℕ)
      → All IsBytes level
      → i < length level
      → length level ≤ fuel
      → fold_proof p (entry level i) (climb p fuel level i) ≡ some (entry (reduce p fuel level) 0)
  unfolding climb reduce
  fold_proof-climb zero level i b h k = absurd (omega arith)
  fold_proof-climb (suc fuel) level i b h k = elim (Bool-cases (leb (length level) 1)) [
    | inl one ↦ let e : i ≡ 0 = ground arith in rw (one, e) (unfold fold_proof in refl)
    | inr more ↦ rw more (
        fold_proof-cons (entry level i) (entry (pad level) (sibling i).0)
          (sibling_step (pad level) i) (climb p fuel (next_level p level) (i / 2))
          (decode-sibling_step level i b)
        ∙ rw (fold_step-sibling level i h) (
            fold_proof-climb fuel (next_level p level) (i / 2) (next_level-IsBytes p d level)
              (ground (arith, length-next_level p level))
              (ground (arith, length-next_level p level))))
  ]

  leaf-IsBytes : (tx : Transaction) → IsBytes (leaf p tx)
  unfolding leaf
  leaf-IsBytes tx = d.digest-IsBytes (p.marshal_transaction tx)

  pub hex_decode-transaction_hash :
      (tx : Transaction) → hex_decode (transaction_hash p tx) ≡ some (leaf p tx)
  unfolding leaf transaction_hash
  hex_decode-transaction_hash tx =
      hex_decode-hex_encode _ (d.digest-IsBytes (p.marshal_transaction tx))

  -- `GenerateMerkleProof` starts from the hashes that `CalculateMerkleRoot` starts from.
  decode_leaves-eq-map : (txs : List Transaction) → decode_leaves p txs ≡ ok (map (leaf p) txs)
  unfolding decode_leaves
  decode_leaves-eq-map [] = refl
  decode_leaves-eq-map (tx ∷ txs) = rw (hex_decode-transaction_hash tx, decode_leaves-eq-map txs)

  calculate_merkle_root_lem :
      (txs : List Transaction)
      → 0 < length txs
      → calculate_merkle_root p txs
        ≡ hex_encode (entry (reduce p (length txs) (map (leaf p) txs)) 0)
  unfolding calculate_merkle_root
  calculate_merkle_root_lem [] h = absurd (omega arith)
  calculate_merkle_root_lem (tx ∷ txs) h = rw (length-map txs (leaf p))

  -- The proof that the code builds for index `i`.
  abbrev pub proof_at : List Transaction → ℕ → List ProofStep
  proof_at txs i = climb p (length txs) (map (leaf p) txs) i

  pub generate_merkle_proof_lem :
      (txs : List Transaction) (i : ℕ)
      → i < length txs
      → generate_merkle_proof p txs (pos i) ≡ ok (proof_at txs i)
  unfolding generate_merkle_proof
  generate_merkle_proof_lem txs i h =
      ground (arith, decode_leaves-eq-map txs, length-map txs (leaf p))

  -- For every index in range a proof is generated, and it verifies the hash of the transaction at that
  -- index against the Merkle root of all transactions.
  pub verify_merkle_proof-generate_merkle_proof :
      (txs : List Transaction) (i : ℕ) (tx : Transaction)
      → get_elem? txs i ≡ some tx
      → (proof : List ProofStep) × (generate_merkle_proof p txs (pos i) ≡ ok proof)
        × (verify_merkle_proof p (transaction_hash p tx) proof (calculate_merkle_root p txs) ≡ true)
  unfolding verify_merkle_proof
  verify_merkle_proof-generate_merkle_proof txs i tx e = (
    proof_at txs i,
    generate_merkle_proof_lem txs i i_lt,
    rw
        (
          hex_decode-transaction_hash tx,
          verify_merkle_proof,
          ← leaf_at,
          fold_proof-climb (length txs) (map (leaf p) txs) i
              (All-map IsBytes (leaf p) txs leaf-IsBytes) (rw (length-map txs (leaf p)) i_lt)
              (omega (arith, length-map txs (leaf p))),
          calculate_merkle_root_lem txs (omega (arith, i_lt)),
        )
        (bytes_eq_refl _),
  )
    where
      i_lt : i < length txs
      i_lt = lt-length_of_get_elem? txs i e

      leaf_at : entry (map (leaf p) txs) i ≡ leaf p tx
      leaf_at = get_or-map txs (leaf p) i tx [] i_lt ∙ ap (leaf p) (get_or_of_get_elem? txs i tx e)
