-- ===== src/Block/Merkle/Binding.antt =====
-- A proof binds: two openings of one root along the same path are the same, unless the hash function
-- collides on what they hash.
use toyblockchain.Prelude.{
  sym, ◌∙◌, ap, ◌≡◌, refl, Bool, true, false, Option, some, List, [], ◌∷◌, ◌++◌, arith, length,
  length-append, Option-cases, inl, inr, map,
}
use toyblockchain.Prelude.Bytes.{
  bytes_eq_iff, hex_decode-IsBytes, hex_encode-inj, IsBytes, Bytes, hex_decode,
}
use toyblockchain.Platform.{Platform, HasDigests}
use toyblockchain.Block.Types.{ProofStep}
use toyblockchain.Block.Merkle.{hex_encode, verify_merkle_proof, fold_step, fold_proof}

append_inj : (a b c d : Bytes) → length a ≡ length c → a ++ b ≡ c ++ d → (a ≡ c) × (b ≡ d)
append_inj [] b [] d h e = (refl, e)
append_inj [] b (x ∷ c) d h e = absurd (omega arith)
append_inj (y ∷ a) b [] d h e = absurd (omega arith)
append_inj (y ∷ a) b (x ∷ c) d h e =
    let (tails, rest) = append_inj a b c d (omega arith) (cc) in (cc, rest)

append_inj_right : (a b c d : Bytes) → length b ≡ length d → a ++ b ≡ c ++ d → (a ≡ c) × (b ≡ d)
append_inj_right a b c d h e =
    append_inj a b c d (omega (arith, length-append a b, length-append c d, ap (length {0}) e)) e

module _ (p : Platform) where
  -- What is hashed at a step.
  abbrev pub preimage : Bytes → Bytes → Bool → Bytes
  preimage current sibling true = sibling ++ current
  preimage current sibling false = current ++ sibling

  -- The two foldings hash no two different texts to one digest at the same step.
  abbrev pub NoCollision : Bytes → Bytes → List ProofStep → List ProofStep → Type 0
  NoCollision a b [] _ = Unit
  NoCollision a b (s ∷ ss) [] = Unit
  NoCollision a b (s ∷ ss) (t ∷ ts) =
      (x y : Bytes)
      → hex_decode s.hash ≡ some x
      → hex_decode t.hash ≡ some y
      → (p.sha256 (preimage a x s.left) ≡ p.sha256 (preimage b y t.left)
          → preimage a x s.left ≡ preimage b y t.left)
        × NoCollision (fold_step p a x s.left) (fold_step p b y t.left) ss ts

  abbrev pub sides : List ProofStep → List Bool
  sides = map (λ s. s.left)

  abbrev pub siblings : List ProofStep → List (Option Bytes)
  siblings = map (λ s. hex_decode s.hash)

  preimage_inj :
      (a b x y : Bytes) (side : Bool)
      → length a ≡ length b
      → preimage a x side ≡ preimage b y side
      → (a ≡ b) × (x ≡ y)
  preimage_inj a b x y true h e = let (l, r) = append_inj_right x a y b h e in (r, l)
  preimage_inj a b x y false h e = append_inj a x b y h e

  fold_step-eq-sha256 :
      (a x : Bytes) (side : Bool) → fold_step p a x side ≡ p.sha256 (preimage a x side)
  unfolding fold_step
  fold_step-eq-sha256 a x true = refl
  fold_step-eq-sha256 a x false = refl

  fold_proof-cons-some :
      (a : Bytes) (s : ProofStep) (ss : List ProofStep) (r : Bytes)
      → fold_proof p a (s ∷ ss) ≡ some r
      → (x : Bytes) × (hex_decode s.hash ≡ some x)
        × (fold_proof p (fold_step p a x s.left) ss ≡ some r)
  unfolding fold_proof
  fold_proof-cons-some a s ss r e = elim (Option-cases (hex_decode s.hash)) [
    | inl bad ↦ ground arith
    | inr (x, good) ↦ (x, good, ground arith)
  ]

  module _ (d : HasDigests p) where
    length-fold_step : (a x : Bytes) (side : Bool) → length (fold_step p a x side) ≡ 32
    length-fold_step a x side = rw (fold_step-eq-sha256 a x side) (d.digest-length _)

    fold_step-IsBytes : (a x : Bytes) (side : Bool) → IsBytes (fold_step p a x side)
    fold_step-IsBytes a x side = rw (fold_step-eq-sha256 a x side) (d.digest-IsBytes _)

    -- Folding two proofs with the same sides to one hash opens one leaf with the same siblings.
    fold_proof_inj :
        (a b r : Bytes) (ss ts : List ProofStep)
        → length a ≡ length b
        → sides ss ≡ sides ts
        → NoCollision a b ss ts
        → fold_proof p a ss ≡ some r
        → fold_proof p b ts ≡ some r
        → (a ≡ b) × (siblings ss ≡ siblings ts)
    fold_proof_inj a b r [] [] h same n e f = unfold fold_proof in (cc (e, f), refl)
    fold_proof_inj a b r [] (t ∷ ts) h same n e f = cc
    fold_proof_inj a b r (s ∷ ss) [] h same n e f = cc
    fold_proof_inj a b r (s ∷ ss) (t ∷ ts) h same n e f =
        let (x, ex, e') = fold_proof-cons-some a s ss r e in
        let (y, fy, f') = fold_proof-cons-some b t ts r f in
        let (apart, rest) = n x y ex fy in
        let side : s.left ≡ t.left = cc in
        let tails : sides ss ≡ sides ts = cc in
        let (digests, more) =
          fold_proof_inj (fold_step p a x s.left) (fold_step p b y t.left) r ss ts
            (length-fold_step a x s.left ∙ sym (length-fold_step b y t.left)) tails rest e' f' in
        let shas : p.sha256 (preimage a x s.left) ≡ p.sha256 (preimage b y t.left) =
          sym (fold_step-eq-sha256 a x s.left) ∙ digests ∙ fold_step-eq-sha256 b y t.left in
        let (same_leaf, same_sibling) =
          preimage_inj a b x y s.left h (apart shas ∙ ap (preimage b y) (sym side)) in
        (same_leaf, cc)

    fold_proof-IsBytes :
        (a r : Bytes) (ss : List ProofStep) → IsBytes a → fold_proof p a ss ≡ some r → IsBytes r
    fold_proof-IsBytes a r [] b e = let e' : a ≡ r = unfold fold_proof in cc e in rw (← e') b
    fold_proof-IsBytes a r (s ∷ ss) b e =
        let (x, ex, e') = fold_proof-cons-some a s ss r e in
        fold_proof-IsBytes (fold_step p a x s.left) r ss (fold_step-IsBytes a x s.left) e'

    verify-opens :
        (h root : Bytes) (ss : List ProofStep)
        → verify_merkle_proof p h ss root ≡ true
        → (a r : Bytes) × (hex_decode h ≡ some a)
          × (fold_proof p a ss ≡ some r)
          × (hex_encode r ≡ root)
    unfolding verify_merkle_proof
    verify-opens h root ss e = elim (Option-cases (hex_decode h)) [
      | inl bad ↦ ground arith
      | inr (a, good) ↦ elim (Option-cases (fold_proof p a ss)) [
        | inl bad' ↦ ground arith
        | inr (r, good') ↦ (a, r, good, good', (bytes_eq_iff (hex_encode r) root).0 (ground arith))
      ]
    ]

    -- Two proofs that verify against one root with siblings on the same sides, for leaf hashes of the
    -- same length, are proofs of the same leaf hash with the same sibling hashes, unless the hash
    -- function collides at some step of the two.
    pub verify_merkle_proof_binding :
        (h h' root a b : Bytes) (ss ts : List ProofStep)
        → hex_decode h ≡ some a
        → hex_decode h' ≡ some b
        → length a ≡ length b
        → sides ss ≡ sides ts
        → NoCollision a b ss ts
        → verify_merkle_proof p h ss root ≡ true
        → verify_merkle_proof p h' ts root ≡ true
        → (a ≡ b) × (siblings ss ≡ siblings ts)
    verify_merkle_proof_binding h h' root a b ss ts ha hb len same n e f =
        let (a', r, ea, er, eroot) = verify-opens h root ss e in
        let (b', q, fb, fq, froot) = verify-opens h' root ts f in
        let a_eq : a' ≡ a = cc in
        let b_eq : b' ≡ b = cc in
        let ra : fold_proof p a ss ≡ some r = rw (← a_eq) er in
        let qb : fold_proof p b ts ≡ some q = rw (← b_eq) fq in
        let r_eq : r ≡ q =
          hex_encode-inj r q (fold_proof-IsBytes a r ss (hex_decode-IsBytes h ha) ra)
            (fold_proof-IsBytes b q ts (hex_decode-IsBytes h' hb) qb) (eroot ∙ sym froot) in
        fold_proof_inj a b q ss ts len same n (rw (← r_eq) ra) qb
