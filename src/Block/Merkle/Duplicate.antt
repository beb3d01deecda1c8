-- ===== src/Block/Merkle/Duplicate.antt =====
-- The hash that pads an odd level also stands for a transaction that is listed twice.
use toyblockchain.Prelude.{
  ℕ, zero, suc, ◌-◌, ◌%◌, ◌≤◌, ◌<◌, ◌≡◌, refl, inl, inr, List, [], ◌∷◌, ◌++◌, arith, map, leb,
  length, length-map, length-append, get_or-append_length, Bool-cases, ap, sym, ◌∙◌,
}
use mathlib.Core.List.{map-append, append_assoc}
use toyblockchain.Prelude.Bytes.{Bytes, hex_encode}
use toyblockchain.Platform.{Platform}
use toyblockchain.Block.Types.{Transaction}
use toyblockchain.Block.Merkle.{entry, pad, next_level, reduce, leaf, calculate_merkle_root}
use toyblockchain.Block.Merkle.Level.{length-next_level, length-pad}

pad_odd :
    (level : List Bytes)
    → length level % 2 ≡ 1
    → pad level ≡ level ++ entry level (length level - 1) ∷ []
unfolding pad
pad_odd level odd = ground arith

pad_even : (level : List Bytes) → length level % 2 ≡ 0 → pad level ≡ level
unfolding pad
pad_even level even = ground arith

pad-snoc : (xs : List Bytes) (x : Bytes) → length xs % 2 ≡ 0 → pad (xs ++ x ∷ []) ≡ xs ++ x ∷ x ∷ []
pad-snoc xs x even =
    pad_odd (xs ++ x ∷ []) (omega (arith, length-append xs (x ∷ [])))
    ∙ ap (λ y. (xs ++ x ∷ []) ++ y ∷ []) last
    ∙ append_assoc xs (x ∷ []) (x ∷ [])
  where
    index : length (xs ++ x ∷ []) - 1 ≡ length xs
    index = omega (arith, length-append xs (x ∷ []))

    last : entry (xs ++ x ∷ []) (length (xs ++ x ∷ []) - 1) ≡ x
    last = rw index (get_or-append_length xs [] x [])

module _ (p : Platform) where
  -- More rounds than enough change nothing.
  pub reduce-fuel :
      (f g : ℕ) (level : List Bytes)
      → length level ≤ f
      → length level ≤ g
      → reduce p f level ≡ reduce p g level
  unfolding reduce
  reduce-fuel zero zero level hf hg = refl
  reduce-fuel zero (suc g) level hf hg = ground arith
  reduce-fuel (suc f) zero level hf hg = ground arith
  reduce-fuel (suc f) (suc g) level hf hg = elim (Bool-cases (leb (length level) 1)) [
    | inl one ↦ rw one
    | inr more ↦ rw more (
        reduce-fuel f g (next_level p level) (ground (arith, length-next_level p level))
          (ground (arith, length-next_level p level)))
  ]

  next_level-pad : (level : List Bytes) → next_level p (pad level) ≡ next_level p level
  unfolding next_level
  next_level-pad level = rw (pad_even (pad level) (omega (arith, length-pad level)))

  reduce-suc :
      (f : ℕ) (level : List Bytes)
      → 2 ≤ length level
      → reduce p (suc f) level ≡ reduce p f (next_level p level)
  unfolding reduce
  reduce-suc f level h = ground arith

  pub reduce-pad :
      (level : List Bytes)
      → 2 ≤ length level
      → reduce p (length (pad level)) (pad level) ≡ reduce p (length level) level
  reduce-pad level h =
      reduce-fuel (length (pad level)) (suc (suc (length level))) (pad level) (omega arith)
        (omega (arith, length-pad level))
      ∙ reduce-suc (suc (length level)) (pad level) (omega (arith, length-pad level))
      ∙ ap (reduce p (suc (length level))) (next_level-pad level)
      ∙ sym (reduce-suc (suc (length level)) level h)
      ∙ reduce-fuel (suc (suc (length level))) (length level) level (omega arith) (omega arith)

  root_lem :
      (txs : List Transaction)
      → 0 < length txs
      → calculate_merkle_root p txs
        ≡ hex_encode (entry (reduce p (length (map (leaf p) txs)) (map (leaf p) txs)) 0)
  unfolding calculate_merkle_root
  root_lem [] h = absurd (omega arith)
  root_lem (tx ∷ txs) h = refl

  -- The Merkle root of an odd number of transactions, three or more, is also that of the same
  -- transactions with the last one repeated.
  pub calculate_merkle_root-repeat_last :
      (txs : List Transaction) (last : Transaction)
      → length txs % 2 ≡ 0
      → 2 ≤ length txs
      → calculate_merkle_root p (txs ++ last ∷ last ∷ [])
        ≡ calculate_merkle_root p (txs ++ last ∷ [])
  calculate_merkle_root-repeat_last txs last even two =
      root_lem (txs ++ last ∷ last ∷ []) (omega (arith, length-append txs (last ∷ last ∷ [])))
      ∙ ap (λ level. hex_encode (entry (reduce p (length level) level) 0)) repeated
      ∙ ap (λ level. hex_encode (entry level 0))
          (reduce-pad (map (leaf p) txs ++ leaf p last ∷ []) enough)
      ∙ ap (λ level. hex_encode (entry (reduce p (length level) level) 0))
          (sym (map-append (leaf p) txs (last ∷ [])))
      ∙ sym (root_lem (txs ++ last ∷ []) (omega (arith, length-append txs (last ∷ []))))
    where
      repeated : map (leaf p) (txs ++ last ∷ last ∷ []) ≡ pad (map (leaf p) txs ++ leaf p last ∷ [])
      repeated =
          map-append (leaf p) txs (last ∷ last ∷ [])
          ∙ sym (pad-snoc (map (leaf p) txs) (leaf p last) (rw (length-map txs (leaf p)) even))

      enough : 2 ≤ length (map (leaf p) txs ++ leaf p last ∷ [])
      enough =
          omega
            (arith, length-append (map (leaf p) txs) (leaf p last ∷ []), length-map txs (leaf p))
