-- ===== src/Ledger/Nonces.antt =====
-- Replay protection: the nonce that an account used last never falls.
use toyblockchain.Prelude.{
  ℕ, ◌+◌, ◌≤◌, ◌<◌, ◌^◌, ◌≡◌, false, List, [], ◌∷◌, if◌then◌else◌, ok, err, arith,
}
use toyblockchain.Prelude.Int.{ℤ}
use toyblockchain.Prelude.Bytes.{Bytes, bytes_eq, bytes_eq_iff, bytes_eq_refl}
use toyblockchain.Platform.{Platform}
use toyblockchain.Block.Types.{Transaction}
use toyblockchain.Ledger.{
  Ledger, invalid_nonce, last_nonce, next_nonce, check_account, validate_transaction, apply,
  apply_from,
}
use toyblockchain.Ledger.Accounts.{
  apply_from-cons, is_faucet, Accepted, apply-Accepted, last_nonce-transfer,
}

module _ (p : Platform) where
  -- A signed transaction that is accepted has one more than the last nonce, with no wrap-around.
  nonce-Accepted :
      (l : Ledger) (tx : Transaction)
      → Accepted p l tx
      → is_faucet tx ≡ false
      → last_nonce l tx.sender < 2 ^ 64
      → tx.nonce ≡ last_nonce l tx.sender + 1
  unfolding next_nonce
  nonce-Accepted l tx a signed small = omega (arith, a.next signed, a.sound.numbered signed)

  -- All nonces that are stored are `uint64` values.
  abbrev pub IsU64 : Ledger → Type 0
  IsU64 l = (a : Bytes) → last_nonce l a < 2 ^ 64

  apply-nonces :
      (l l' : Ledger) (tx : Transaction)
      → apply p l tx ≡ (l', ok tt)
      → IsU64 l
      → (a : Bytes) → (last_nonce l a ≤ last_nonce l' a) × (last_nonce l' a < 2 ^ 64)
  unfolding next_nonce
  apply-nonces l l' tx h u a =
      let (acc, e) = apply-Accepted p l l' tx h in
      rw e (
        ground (
          arith,
          last_nonce-transfer l tx a,
          u a,
          u tx.sender,
          acc.next,
          nonce-Accepted l tx acc,
          bytes_eq_iff tx.sender a,
        ))

  -- The signed transactions of one account in a batch.
  abbrev pub signed_by : Bytes → List Transaction → ℕ
  signed_by a [] = 0
  signed_by a (tx ∷ txs) =
      (if is_faucet tx then 0 else if bytes_eq tx.sender a then 1 else 0) + signed_by a txs

  last_nonce-apply :
      (l l' : Ledger) (tx : Transaction) (a : Bytes)
      → apply p l tx ≡ (l', ok tt)
      → IsU64 l
      → last_nonce l' a ≡ last_nonce l a + signed_by a (tx ∷ [])
  last_nonce-apply l l' tx a h u =
      let (acc, e) = apply-Accepted p l l' tx h in
      rw e (
        ground (
          arith,
          last_nonce-transfer l tx a,
          nonce-Accepted l tx acc,
          u tx.sender,
          bytes_eq_iff tx.sender a,
        ))

  apply-IsU64 : (l l' : Ledger) (tx : Transaction) → apply p l tx ≡ (l', ok tt) → IsU64 l → IsU64 l'
  apply-IsU64 l l' tx h u a = (apply-nonces l l' tx h u a).1

  -- Over an accepted batch the last nonce of an account grows by exactly the number of transactions
  -- that the account has signed in it, and stays a `uint64`.
  pub last_nonce-apply_from :
      (h : ℤ) (i : ℕ) (txs : List Transaction) (l l' : Ledger) (a : Bytes)
      → IsU64 l
      → apply_from p h i txs l ≡ (l', ok tt)
      → (last_nonce l' a ≡ last_nonce l a + signed_by a txs) × (last_nonce l' a < 2 ^ 64)
  last_nonce-apply_from h i [] l l' a u e =
      let same : l ≡ l' = unfold apply_from in cc e in rw (← same) (omega (arith, u a))
  last_nonce-apply_from h i (tx ∷ txs) l l' a u e =
      let (m, f, g) = apply_from-cons p h i tx txs l l' e in
      omega (
        arith,
        last_nonce-apply l m tx a f u,
        last_nonce-apply_from h (i + 1) txs m l' a (apply-IsU64 l m tx f u) g,
      )

  -- No replay: once a signed transaction is accepted, and any accepted batch has followed, the same
  -- transaction is refused, with the nonce that is expected instead.
  pub apply-rejects_replay :
      (l m l' : Ledger) (tx : Transaction) (h : ℤ) (i : ℕ) (txs : List Transaction)
      → IsU64 l
      → is_faucet tx ≡ false
      → apply p l tx ≡ (m, ok tt)
      → apply_from p h i txs m ≡ (l', ok tt)
      → apply p l' tx ≡ (l', err (invalid_nonce tx.sender tx.nonce (next_nonce l' tx.sender)))
  unfolding apply validate_transaction check_account next_nonce
  apply-rejects_replay l m l' tx h i txs u signed e f =
      let (acc, same) = apply-Accepted p l m tx e in
      let used = last_nonce-apply l m tx tx.sender e u in
      let (later, small) =
        last_nonce-apply_from h i txs m l' tx.sender (apply-IsU64 l m tx e u) f in
      ground (
        arith,
        acc.valid,
        nonce-Accepted l tx acc signed (u tx.sender),
        used,
        later,
        small,
        bytes_eq_refl tx.sender,
      )
