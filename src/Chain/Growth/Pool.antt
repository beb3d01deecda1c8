-- ===== src/Chain/Growth/Pool.antt =====
-- The pending pool (chain/chain.go, `AddTransaction`): replaying it is replaying a block.
use toyblockchain.Prelude.{ℕ, ◌+◌, ◌≡◌, refl, ◌∙◌, inl, inr, arith, List, [], ◌∷◌, ◌++◌, ok}
use toyblockchain.Prelude.Int.{ℤ}
use toyblockchain.Platform.{Platform}
use toyblockchain.Block.Types.{Transaction}
use toyblockchain.Ledger.{Ledger, transfer, validate_transaction, apply, apply_from}
use toyblockchain.Ledger.Accounts.{apply_lem, apply_from-apply}
use toyblockchain.Chain.Methods.{apply_pool}

module _ (p : Platform) where
  pub apply_pool-cons :
      (tx : Transaction) (txs : List Transaction) (l l' : Ledger)
      → apply_pool p (tx ∷ txs) l ≡ ok l'
      → (apply p l tx ≡ (transfer l tx, ok tt)) × (apply_pool p txs (transfer l tx) ≡ ok l')
  unfolding apply_pool
  apply_pool-cons tx txs l l' e = elim (apply_lem p l tx) [
    | inl (v, f) ↦ (f, ground arith)
    | inr (x, v, f) ↦ absurd (ground arith)
  ]

  pub apply_pool-apply :
      (tx : Transaction) (txs : List Transaction) (l m : Ledger)
      → apply p l tx ≡ (m, ok tt)
      → apply_pool p (tx ∷ txs) l ≡ apply_pool p txs m
  unfolding apply_pool
  apply_pool-apply tx txs l m e = ground arith

  -- A pool that replays is a batch that any block can hold.
  pub apply_pool-apply_from :
      (h : ℤ) (i : ℕ) (txs : List Transaction) (l l' : Ledger)
      → apply_pool p txs l ≡ ok l'
      → apply_from p h i txs l ≡ (l', ok tt)
  unfolding apply_pool apply_from
  apply_pool-apply_from h i [] l l' e = ground arith
  apply_pool-apply_from h i (tx ∷ txs) l l' e =
      let (f, g) = apply_pool-cons tx txs l l' e in
      apply_from-apply p h i tx txs l (transfer l tx) f
      ∙ apply_pool-apply_from h (i + 1) txs (transfer l tx) l' g

  pub apply_pool-split :
      (txs us : List Transaction) (l l' : Ledger)
      → apply_pool p (txs ++ us) l ≡ ok l'
      → (m : Ledger) × (apply_pool p txs l ≡ ok m) × (apply_pool p us m ≡ ok l')
  unfolding apply_pool
  apply_pool-split [] us l l' e = (l, refl, e)
  apply_pool-split (tx ∷ txs) us l l' e =
      let (f, g) = apply_pool-cons tx (txs ++ us) l l' e in
      let (m, h, k) = apply_pool-split txs us (transfer l tx) l' g in
      (m, apply_pool-apply tx txs l (transfer l tx) f ∙ h, k)

  pub apply_pool-snoc :
      (txs : List Transaction) (tx : Transaction) (l m : Ledger)
      → apply_pool p txs l ≡ ok m
      → validate_transaction p m tx ≡ ok tt
      → apply_pool p (txs ++ tx ∷ []) l ≡ ok (transfer m tx)
  unfolding apply_pool
  apply_pool-snoc [] tx l m e v =
      let same : l ≡ m = cc e in
      elim (apply_lem p m tx) [
        | inl (w, f) ↦ rw same (apply_pool-apply tx [] m (transfer m tx) f)
        | inr (x, w, f) ↦ absurd (ground arith)
      ]
  apply_pool-snoc (u ∷ txs) tx l m e v =
      let (f, g) = apply_pool-cons u txs l m e in
      apply_pool-apply u (txs ++ tx ∷ []) l (transfer l u) f
      ∙ apply_pool-snoc txs tx (transfer l u) m g v
