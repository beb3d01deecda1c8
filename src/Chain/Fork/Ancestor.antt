-- ===== src/Chain/Fork/Ancestor.antt =====
-- Where two chains part (chain/fork.go, `CommonAncestorHeight`).
use toyblockchain.Prelude.{
  ℕ, zero, suc, ◌+◌, ◌^◌, ◌<◌, ◌≤◌, ◌≡◌, refl, ap, ◌∙◌, ◌⊎◌, inl, inr, Bool-cases, Option, none,
  some, List, [], ◌∷◌, length, arith,
}
use toyblockchain.Prelude.Int.{ℤ, pos, negsuc}
use toyblockchain.Prelude.Bytes.{bytes_eq, bytes_eq_iff}
use toyblockchain.Platform.{Platform}
use toyblockchain.Block.Types.{Block}
use toyblockchain.Chain.Types.{Chain}
use toyblockchain.Chain.Validation.Exact.{AreValid, IsValid}
use toyblockchain.Chain.Growth.Blocks.{IsBefore, IsLinked-height}
use toyblockchain.Chain.Fork.{common_from, common_ancestor_height}

-- Both lists have a block at the index, and these have one hash.
abbrev pub SameHashAt : ℕ → List Block → List Block → Type 0
SameHashAt i [] ds = ⊥
SameHashAt i (b ∷ bs) [] = ⊥
SameHashAt zero (b ∷ bs) (d ∷ ds) = b.hash ≡ d.hash
SameHashAt (suc i) (b ∷ bs) (d ∷ ds) = SameHashAt i bs ds

-- The index of the last block of the common part, if there is one.
abbrev pub PartAfter : ℕ → List Block → List Block → Type 0
PartAfter k bs ds = ((i : ℕ) → i ≤ k → SameHashAt i bs ds) × ¬ SameHashAt (suc k) bs ds

PartAfter-zero :
    (b d : Block) (bs ds : List Block)
    → b.hash ≡ d.hash
    → ¬ SameHashAt zero bs ds
    → PartAfter zero (b ∷ bs) (d ∷ ds)
PartAfter-zero b d bs ds same part = (go, part)
  where
    go : (i : ℕ) → i ≤ zero → SameHashAt i (b ∷ bs) (d ∷ ds)
    go zero h = same
    go (suc i) h = absurd (omega arith)

PartAfter-suc :
    (k : ℕ) (b d : Block) (bs ds : List Block)
    → b.hash ≡ d.hash
    → PartAfter k bs ds
    → PartAfter (suc k) (b ∷ bs) (d ∷ ds)
PartAfter-suc k b d bs ds same (agree, part) = (go, part)
  where
    go : (i : ℕ) → i ≤ suc k → SameHashAt i (b ∷ bs) (d ∷ ds)
    go zero h = same
    go (suc i) h = agree i (omega arith)

module _ (p : Platform) where
  common_from_lem :
      (c : Chain) (previous : Option Block) (bs ds : List Block) (n : ℕ) (ancestor : ℤ)
      → AreValid p c previous bs
      → IsBefore previous n
      → n + length bs < 2 ^ 63
      → ((common_from ancestor bs ds ≡ ancestor) × ¬ SameHashAt zero bs ds)
        ⊎ ((k : ℕ) × (common_from ancestor bs ds ≡ pos (n + k)) × PartAfter k bs ds)
  unfolding common_from
  common_from_lem c previous [] ds n ancestor valid before small = inl (refl, λ h. h)
  common_from_lem c previous (b ∷ bs) [] n ancestor valid before small = inl (refl, λ h. h)
  common_from_lem c previous (b ∷ bs) (d ∷ ds) n ancestor valid before small =
      let height = IsLinked-height previous b n valid.0.linked before (omega arith) in
      let later =
        common_from_lem c (some b) bs ds (suc n) b.height valid.1 (n, refl, height) (omega arith) in
      elim (Bool-cases (bytes_eq b.hash d.hash)) [
        | inr e ↦ inl (rw e refl, λ same. cc (e, (bytes_eq_iff b.hash d.hash).1 same))
        | inl e ↦
            let same = (bytes_eq_iff b.hash d.hash).0 e in
            elim later [
              | inl (stop, part) ↦
                  let end : n ≡ n + 0 = omega arith in
                  inr (0, rw e (stop ∙ (height ∙ ap pos end)), PartAfter-zero b d bs ds same part)
              | inr (k, stop, part) ↦
                  let end : suc n + k ≡ n + suc k = omega arith in
                  inr (suc k, rw e (stop ∙ ap pos end), PartAfter-suc k b d bs ds same part)
            ]
      ]

  -- On a valid chain of less than 2^63 blocks, `CommonAncestorHeight` is -1 where the first blocks do
  -- not have one hash. Else it is the height at which the chains part: the blocks at all heights up to
  -- it have the same hashes in both chains, and those at the next height, if both exist, have not.
  pub common_ancestor_height_lem :
      (c d : Chain)
      → IsValid p c
      → length c.blocks < 2 ^ 63
      → ((common_ancestor_height c d ≡ negsuc 0) × ¬ SameHashAt zero c.blocks d.blocks)
        ⊎ ((k : ℕ) × (common_ancestor_height c d ≡ pos k) × PartAfter k c.blocks d.blocks)
  unfolding common_ancestor_height
  common_ancestor_height_lem c d valid small =
      elim (common_from_lem c none c.blocks d.blocks 0 (negsuc 0) valid.blocks refl (omega arith)) [
        | inl stop ↦ inl stop
        | inr (k, stop, part) ↦
            let start : 0 + k ≡ k = omega arith in inr (k, stop ∙ ap pos start, part)
      ]
