-- ===== src/Ledger/Accounts.antt =====
-- When a transaction is accepted, and what it does to every account.
use toyblockchain.Prelude.{
  ◌∙◌, ℕ, ◌+◌, ◌≡◌, ◌≢◌, refl, ◌↔◌, ◌⊎◌, inl, inr, false, Bool, Bool-cases, List, [], ◌∷◌, ◌++◌,
  if◌then◌else◌, Result, ok, err, arith,
}
use toyblockchain.Prelude.Int.{ℤ, pos, ◌≤ℤ◌}
use toyblockchain.Prelude.Int64.{add64, sub64}
use toyblockchain.Prelude.Bytes.{Bytes, bytes_eq}
use toyblockchain.Prelude.Dict.{index, index-insert}
use toyblockchain.Platform.{Platform}
use toyblockchain.Block.Types.{Transaction, Block, faucet_account}
use toyblockchain.Block.Transaction.{validate}
use toyblockchain.Ledger.{
  Ledger, LedgerError, balance, last_nonce, next_nonce, debit, credit, transfer, check_account,
  validate_transaction, apply, apply_from, apply_block, replay,
}

abbrev pub is_faucet : Transaction → Bool
is_faucet tx = bytes_eq tx.sender faucet_account

-- The parties of a transaction that passes `Validate` differ, and its amount is positive.
pub record IsSound (tx : Transaction) : Type 0 where
  pub distinct : bytes_eq tx.sender tx.recipient ≡ false
  pub positive : pos 1 ≤ℤ tx.amount
  pub numbered : is_faucet tx ≡ false → tx.nonce ≢ 0

pub balance-transfer :
    (l : Ledger) (tx : Transaction) (a : Bytes)
    → bytes_eq tx.sender tx.recipient ≡ false
    → balance (transfer l tx) a ≡ (
        if bytes_eq tx.recipient a
        then add64 (balance l tx.recipient) tx.amount
        else if bytes_eq tx.sender a
        then (if is_faucet tx then balance l a else sub64 (balance l tx.sender) tx.amount)
        else balance l a)
unfolding transfer balance debit credit
balance-transfer l tx a distinct = elim (Bool-cases (is_faucet tx)) [
  | inl faucet ↦ rw faucet (
      ground (
        arith,
        index-insert l.balances a tx.recipient
            (add64 (index l.balances tx.recipient (pos 0)) tx.amount) (pos 0),
      ))
  | inr signed ↦ rw signed (simp (index-insert, distinct))
]

pub last_nonce-transfer :
    (l : Ledger) (tx : Transaction) (a : Bytes)
    → last_nonce (transfer l tx) a ≡ (
        if is_faucet tx
        then last_nonce l a
        else if bytes_eq tx.sender a
        then tx.nonce
        else last_nonce l a)
unfolding transfer last_nonce debit credit
last_nonce-transfer l tx a = ground (arith, index-insert l.nonces a tx.sender tx.nonce 0)

module _ (p : Platform) where
  pub validate-IsSound : (tx : Transaction) → validate p tx ≡ ok tt → IsSound tx
  unfolding validate
  validate-IsSound tx h = record {
    distinct = ground arith;
    positive = ground arith;
    numbered = ground arith;
  }

  -- `Apply` writes exactly when `ValidateTransaction` passes.
  pub apply_lem :
      (l : Ledger) (tx : Transaction)
      → ((validate_transaction p l tx ≡ ok tt) × (apply p l tx ≡ (transfer l tx, ok tt)))
        ⊎ ((e : LedgerError) × (validate_transaction p l tx ≡ err e) × (apply p l tx ≡ (l, err e)))
  unfolding apply
  apply_lem l tx = go (validate_transaction p l tx) refl
    where
      go :
          (r : Result LedgerError (Unit {0}))
          → validate_transaction p l tx ≡ r
          → ((validate_transaction p l tx ≡ ok tt) × (apply p l tx ≡ (transfer l tx, ok tt)))
            ⊎ ((e : LedgerError) × (validate_transaction p l tx ≡ err e)
                × (apply p l tx ≡ (l, err e)))
      go (ok u) h = inl (h, rw (h, apply))
      go (err e) h = inr (e, h, rw (h, apply))

  -- A signed transaction passes on top of `Validate` with the next nonce and a covering balance.
  pub validate_transaction_iff :
      (l : Ledger) (tx : Transaction)
      → is_faucet tx ≡ false
      → (validate_transaction p l tx ≡ ok tt) ↔ (
          (validate p tx ≡ ok tt)
          × (tx.nonce ≡ next_nonce l tx.sender)
          × (tx.amount ≤ℤ balance l tx.sender))
  unfolding validate_transaction check_account
  validate_transaction_iff l tx signed = ground arith

  -- An accepted transaction: what the later proofs read of it.
  pub record Accepted (l : Ledger) (tx : Transaction) : Type 0 where
    pub valid : validate p tx ≡ ok tt
    pub sound : IsSound tx
    pub next : is_faucet tx ≡ false → tx.nonce ≡ next_nonce l tx.sender
    pub covered : is_faucet tx ≡ false → tx.amount ≤ℤ balance l tx.sender

  pub validate_transaction-Accepted :
      (l : Ledger) (tx : Transaction) → validate_transaction p l tx ≡ ok tt → Accepted l tx
  unfolding validate_transaction check_account
  validate_transaction-Accepted l tx h = record {
    valid = ground arith;
    sound = validate-IsSound tx (ground arith);
    next = ground arith;
    covered = ground arith;
  }

  pub apply-Accepted :
      (l l' : Ledger) (tx : Transaction)
      → apply p l tx ≡ (l', ok tt)
      → Accepted l tx × (l' ≡ transfer l tx)
  apply-Accepted l l' tx h = elim (apply_lem l tx) [
    | inl (v, e) ↦ (validate_transaction-Accepted l tx v, ground arith)
    | inr (x, v, e) ↦ ground arith
  ]

  -- An accepted batch is an accepted transaction followed by an accepted batch.
  pub apply_from-cons :
      (h : ℤ) (i : ℕ) (tx : Transaction) (txs : List Transaction) (l l' : Ledger)
      → apply_from p h i (tx ∷ txs) l ≡ (l', ok tt)
      → (m : Ledger) × (apply p l tx ≡ (m, ok tt)) × (apply_from p h (i + 1) txs m ≡ (l', ok tt))
  unfolding apply_from
  apply_from-cons h i tx txs l l' e = elim (apply_lem l tx) [
    | inl (v, f) ↦ (transfer l tx, f, ground arith)
    | inr (x, v, f) ↦ ground arith
  ]

  pub apply_from-apply :
      (h : ℤ) (i : ℕ) (tx : Transaction) (txs : List Transaction) (l m : Ledger)
      → apply p l tx ≡ (m, ok tt)
      → apply_from p h i (tx ∷ txs) l ≡ apply_from p h (i + 1) txs m
  unfolding apply_from
  apply_from-apply h i tx txs l m e = ground arith

  -- A batch that is accepted is accepted in any block, from any index.
  pub apply_from-relabel :
      (h k : ℤ) (i j : ℕ) (txs : List Transaction) (l l' : Ledger)
      → apply_from p h i txs l ≡ (l', ok tt)
      → apply_from p k j txs l ≡ (l', ok tt)
  unfolding apply_from
  apply_from-relabel h k i j [] l l' e = e
  apply_from-relabel h k i j (tx ∷ txs) l l' e =
      let (m, f, g) = apply_from-cons h i tx txs l l' e in
      apply_from-apply k j tx txs l m f ∙ apply_from-relabel h k (i + 1) (j + 1) txs m l' g

  pub apply_from-append :
      (h : ℤ) (i : ℕ) (txs us : List Transaction) (l m l' : Ledger)
      → apply_from p h i txs l ≡ (m, ok tt)
      → apply_from p h i us m ≡ (l', ok tt)
      → apply_from p h i (txs ++ us) l ≡ (l', ok tt)
  unfolding apply_from
  apply_from-append h i [] us l m l' e f = let same : l ≡ m = cc e in rw same f
  apply_from-append h i (tx ∷ txs) us l m l' e f =
      let (n, g, k) = apply_from-cons h i tx txs l m e in
      apply_from-apply h i tx (txs ++ us) l n g
      ∙ apply_from-append h (i + 1) txs us n m l' k (apply_from-relabel h h i (i + 1) us m l' f)

  -- A chain that is replayed: its first block is accepted, and the rest is replayed from there.
  pub replay-cons :
      (b : Block) (bs : List Block) (l l' : Ledger)
      → replay p (b ∷ bs) l ≡ ok l'
      → (m : Ledger) × (apply_from p b.height 0 b.transactions l ≡ (m, ok tt))
        × (replay p bs m ≡ ok l')
  unfolding replay apply_block
  replay-cons b bs l l' e = go (apply_from p b.height 0 b.transactions l) refl
    where
      go :
          (r : Ledger × Result LedgerError (Unit {0}))
          → apply_from p b.height 0 b.transactions l ≡ r
          → (m : Ledger) × (apply_from p b.height 0 b.transactions l ≡ (m, ok tt))
            × (replay p bs m ≡ ok l')
      go (m, ok u) f = (m, f, ground arith)
      go (m, err x) f = ground arith
