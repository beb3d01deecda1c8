-- ===== src/Chain/Fork/Survivors.antt =====
-- Which pending transactions `revalidatePending` keeps (chain/fork.go).
use toyblockchain.Prelude.{
  ◌+◌, ◌≡◌, refl, ap, sym, ◌∙◌, inl, inr, Bool, true, false, ◌||◌, Bool-cases, List, [], ◌∷◌, ◌++◌,
  Result-cases, ok, err, wrap_err, ◌>>◌,
}
use mathlib.Core.List.{append-nil, append_assoc}
use toyblockchain.Prelude.Bytes.{Bytes, hex_encode, bytes_eq, bytes_eq_iff}
use toyblockchain.Platform.{Platform}
use toyblockchain.Block.Types.{Transaction}
use toyblockchain.Ledger.{LedgerError, Ledger, transfer, validate_transaction, rebuild}
use toyblockchain.Chain.Types.{Chain, rejected}
use toyblockchain.Chain.Methods.{add_transaction, apply_pool, chain_ledger}
use toyblockchain.Chain.Growth.Pool.{apply_pool-snoc}
use toyblockchain.Chain.Fork.{
  Revalidation, contains, transaction_identifier, count_added, revalidate_one, revalidate,
  revalidate_pending,
}

module _ (p : Platform) where
  -- the SHA-256 of its encoding, in hexadecimal digits
  abbrev pub digest : Transaction → Bytes
  digest tx = hex_encode (p.sha256 (p.marshal_transaction tx))

  -- A transaction with this digest is among the earlier ones.
  unfoldable pub repeats : Bytes → List Transaction → Bool
  repeats text [] = false
  repeats text (tx ∷ earlier) = bytes_eq (digest tx) text || repeats text earlier

  -- The transactions that go into the pool: those that have no digest of an earlier one and that
  -- are valid after the ones before them that go in.
  unfoldable pub survivors : Ledger → List Transaction → List Transaction → List Transaction
  survivors l earlier [] = []
  survivors l earlier (tx ∷ txs) = elim (repeats (digest tx) earlier) [
    | true ↦ survivors l (tx ∷ earlier) txs
    | false ↦ elim (validate_transaction p l tx) [
      | ok _ ↦ tx ∷ survivors (transfer l tx) (tx ∷ earlier) txs
      | err _ ↦ survivors l (tx ∷ earlier) txs
    ]
  ]

  -- The ledger of a chain after its pool.
  pub record Replays (c : Chain) (l : Ledger) : Type 0 where
    pub confirmed : Ledger
    pub rebuilt : rebuild p c.blocks ≡ ok confirmed
    pub pooled : apply_pool p c.pending confirmed ≡ ok l

  abbrev pub Remembers : List Bytes → List Transaction → Type 0
  Remembers seen earlier = (k : Bytes) → contains k seen ≡ repeats k earlier

  add_transaction-Replays :
      (c : Chain) (tx : Transaction) (l : Ledger)
      → Replays c l
      → add_transaction p c tx ≡ (
          wrap_err rejected (validate_transaction p l tx)
          >> ok (record c { pending = c.pending ++ tx ∷ [] }))
  unfolding add_transaction chain_ledger
  add_transaction-Replays c tx l r = rw (r.rebuilt, r.pooled) refl

  -- An identifier that was there already adds nothing.
  Remembers-again :
      (tx : Transaction) (seen : List Bytes) (earlier : List Transaction)
      → Remembers seen earlier
      → contains (digest tx) seen ≡ true
      → Remembers seen (tx ∷ earlier)
  unfolding repeats
  Remembers-again tx seen earlier h e k = elim (Bool-cases (bytes_eq (digest tx) k)) [
    | inl f ↦ let same = (bytes_eq_iff (digest tx) k).0 f in rw f (rw (← same) e)
    | inr f ↦ rw f (h k)
  ]

  Remembers-new :
      (tx : Transaction) (seen : List Bytes) (earlier : List Transaction)
      → Remembers seen earlier
      → Remembers (digest tx ∷ seen) (tx ∷ earlier)
  unfolding repeats contains
  Remembers-new tx seen earlier h k = ap (λ (b : Bool). bytes_eq (digest tx) k || b) (h k)

  -- One round of the loop, in its three cases, beside what it is for the survivors.
  module _ (s : Revalidation) (l : Ledger) (tx : Transaction) (earlier txs : List Transaction) where
    abbrev Next : Revalidation → List Transaction → Type 0
    Next t rest = (revalidate_one p s tx ≡ t) × (survivors l earlier (tx ∷ txs) ≡ rest)

    repeated :
        Remembers s.seen earlier
        → contains (digest tx) s.seen ≡ true
        → Next (record s { dropped = s.dropped + 1 }) (survivors l (tx ∷ earlier) txs)
    unfolding revalidate_one survivors transaction_identifier
    repeated h e =
        let known : repeats (digest tx) earlier ≡ true = sym (h (digest tx)) ∙ e in
        (rw e refl, rw (survivors, known) refl)

    module _ (h : Remembers s.seen earlier) (e : contains (digest tx) s.seen ≡ false)
        (r : Replays s.target l) where
      first_time : repeats (digest tx) earlier ≡ false
      first_time = sym (h (digest tx)) ∙ e

      accepted :
          validate_transaction p l tx ≡ ok tt
          → Next
              (record s {
                seen = digest tx ∷ s.seen;
                target = record s.target { pending = s.target.pending ++ tx ∷ [] };
                kept = s.kept + 1;
              })
              (tx ∷ survivors (transfer l tx) (tx ∷ earlier) txs)
      unfolding revalidate_one count_added survivors transaction_identifier
      accepted v = (
        rw (e, add_transaction-Replays s.target tx l r, v) refl,
        rw (survivors, first_time, v) refl,
      )

      invalid :
          (x : LedgerError)
          → validate_transaction p l tx ≡ err x
          → Next
              (record s { seen = digest tx ∷ s.seen; dropped = s.dropped + 1 })
              (survivors l (tx ∷ earlier) txs)
      unfolding revalidate_one count_added survivors transaction_identifier
      invalid x v = (
        rw (e, add_transaction-Replays s.target tx l r, v) refl,
        rw (survivors, first_time, v) refl,
      )

  -- The loop puts the survivors into the pool, in order.
  revalidate-survivors :
      (txs earlier : List Transaction) (s : Revalidation) (l : Ledger)
      → Replays s.target l
      → Remembers s.seen earlier
      → (revalidate p txs s).target.pending ≡ s.target.pending ++ survivors l earlier txs
  unfolding revalidate survivors
  revalidate-survivors [] earlier s l r h = sym (append-nil s.target.pending)
  revalidate-survivors (tx ∷ txs) earlier s l r h =
      elim (Bool-cases (contains (digest tx) s.seen)) [
        | inl e ↦
            let (one, rest) = repeated s l tx earlier txs h e in
            rw (revalidate, one, rest)
              (revalidate-survivors txs (tx ∷ earlier) (record s { dropped = s.dropped + 1 }) l r
                (Remembers-again tx s.seen earlier h e))
        | inr e ↦
            let seen' = digest tx ∷ s.seen in
            let remembered = Remembers-new tx s.seen earlier h in
            elim (Result-cases (validate_transaction p l tx)) [
              | inl (u, v) ↦
                  let (one, rest) = accepted s l tx earlier txs h e r v in
                  let longer : Chain = record s.target { pending = s.target.pending ++ tx ∷ [] } in
                  let later =
                    revalidate-survivors txs (tx ∷ earlier)
                      (record s { seen = seen'; target = longer; kept = s.kept + 1 })
                      (transfer l tx)
                      (record {
                        confirmed = r.confirmed;
                        rebuilt = r.rebuilt;
                        pooled = apply_pool-snoc p s.target.pending tx r.confirmed l r.pooled v;
                      })
                      remembered in
                  rw (revalidate, one, rest)
                    (later
                      ∙ append_assoc s.target.pending (tx ∷ [])
                          (survivors (transfer l tx) (tx ∷ earlier) txs))
              | inr (x, v) ↦
                  let (one, rest) = invalid s l tx earlier txs h e r x v in
                  rw (revalidate, one, rest)
                    (revalidate-survivors txs (tx ∷ earlier)
                      (record s { seen = seen'; dropped = s.dropped + 1 }) l r remembered)
            ]
      ]

  -- From an empty pool, on the ledger of the blocks.
  pub revalidate_pending-survivors :
      (d : Chain) (l : Ledger) (txs : List Transaction)
      → rebuild p d.blocks ≡ ok l
      → (revalidate_pending p (record d { pending = [] }) txs).target.pending ≡ survivors l [] txs
  unfolding revalidate_pending apply_pool contains repeats
  revalidate_pending-survivors d l txs e =
      revalidate-survivors txs []
        (record { seen = []; target = record d { pending = [] }; kept = 0; dropped = 0 }) l
        (record { confirmed = l; rebuilt = e; pooled = refl }) (λ k. refl)
