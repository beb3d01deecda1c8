-- ===== src/Block/Merkle/Level.antt =====
-- One row of the tree: its length, its entries, and the reduction to a single hash.
use toyblockchain.Prelude.{
  ℕ, zero, suc, ◌+◌, ◌-◌, ◌*◌, ◌/◌, ◌%◌, ◌≤◌, ◌<◌, ◌≡◌, refl, inl, inr, List, [], ◌∷◌, ◌++◌, arith,
  ◌==◌, length, length-append, get_or-append_left, All, All-append, All-get_or, Bool-cases,
}
use toyblockchain.Prelude.Bytes.{Bytes, IsBytes}
use toyblockchain.Platform.{Platform, HasDigests}
use toyblockchain.Block.Merkle.{entry, pad, combine, next_level, reduce}

pub length-pad : (level : List Bytes) → length (pad level) ≡ length level + length level % 2
unfolding pad
length-pad level = ground (arith, length-append level (entry level (length level - 1) ∷ []))

pub entry-pad :
    (level : List Bytes) (i : ℕ) → i < length level → entry (pad level) i ≡ entry level i
unfolding pad
entry-pad level i h =
    ground (arith, get_or-append_left level (entry level (length level - 1) ∷ []) i [] h)

pub pad-IsBytes : (level : List Bytes) → All IsBytes level → All IsBytes (pad level)
unfolding pad
pad-IsBytes level h = elim (Bool-cases (length level % 2 == 0)) [
  | inl even ↦ rw even h
  | inr odd ↦
      rw odd
        (All-append IsBytes level _ h (All-get_or IsBytes level (length level - 1) [] h tt, tt))
]

module _ (p : Platform) where
  pub length-combine : (level : List Bytes) → length (combine p level) ≡ length level / 2
  unfolding combine
  length-combine [] = omega arith
  length-combine (l ∷ []) = omega arith
  length-combine (l ∷ r ∷ rest) = omega (arith, length-combine rest)

  pub length-next_level :
      (level : List Bytes) → length (next_level p level) ≡ (length level + 1) / 2
  unfolding next_level
  length-next_level level = omega (arith, length-combine (pad level), length-pad level)

  pub entry-combine :
      (level : List Bytes) (i : ℕ)
      → 2 * i + 1 < length level
      → entry (combine p level) i ≡ p.sha256 (entry level (2 * i) ++ entry level (2 * i + 1))
  unfolding combine
  entry-combine [] i h = absurd (omega arith)
  entry-combine (l ∷ []) i h = absurd (omega arith)
  entry-combine (l ∷ r ∷ rest) zero h = refl
  entry-combine (l ∷ r ∷ rest) (suc i) h =
      let right : 2 * suc i + 1 ≡ suc (suc (2 * i + 1)) = omega arith in
      let left : 2 * suc i ≡ suc (suc (2 * i)) = omega arith in
      rw (right, left) (entry-combine rest i (omega arith))

  pub entry-next_level :
      (level : List Bytes) (i : ℕ)
      → 2 * i < length level
      → entry (next_level p level) i
        ≡ p.sha256 (entry (pad level) (2 * i) ++ entry (pad level) (2 * i + 1))
  unfolding next_level
  entry-next_level level i h = entry-combine (pad level) i (omega (arith, length-pad level))

  -- A level of n hashes is reduced to one hash within n rounds.
  pub length-reduce :
      (fuel : ℕ) (level : List Bytes)
      → 0 < length level
      → length level ≤ fuel
      → length (reduce p fuel level) ≡ 1
  unfolding reduce
  length-reduce zero level h k = absurd (omega arith)
  length-reduce (suc fuel) level h k =
      ground (arith, length-next_level level, length-reduce fuel (next_level p level))

  module _ (d : HasDigests p) where
    pub combine-IsBytes : (level : List Bytes) → All IsBytes (combine p level)
    unfolding combine
    combine-IsBytes [] = tt
    combine-IsBytes (l ∷ []) = tt
    combine-IsBytes (l ∷ r ∷ rest) = (d.digest-IsBytes (l ++ r), combine-IsBytes rest)

    pub next_level-IsBytes : (level : List Bytes) → All IsBytes (next_level p level)
    unfolding next_level
    next_level-IsBytes level = combine-IsBytes (pad level)
