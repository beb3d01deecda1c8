-- ===== src/Cli/Granting.antt =====
-- When `faucet` queues a grant (cli/cli.go).
use toyblockchain.Prelude.{
  false, true, ◌≡◌, ◌≢◌, refl, sym, ◌↔◌, inl, some, [], ◌∷◌, ◌++◌, Result, ok, err, wrap_err,
  wrap_err-ok, >>=-eq-ok, or_fail-ok, arith,
}
use toyblockchain.Prelude.Int.{ℤ, pos, ◌≤ℤ◌}
use toyblockchain.Prelude.Bytes.{Bytes, bytes_eq, parse_int, trim_space}
use toyblockchain.Platform.{Platform}
use toyblockchain.Block.Types.{Transaction, faucet_account}
use toyblockchain.Block.Transaction.{TransactionError, is_empty, validate}
use toyblockchain.Block.Transaction.Ownership.{validate_iff}
use toyblockchain.Ledger.{Ledger, validate_transaction}
use toyblockchain.Chain.Types.{Chain}
use toyblockchain.Chain.Methods.{add_transaction}
use toyblockchain.Chain.Growth.Accepting.{add_transaction-run, add_transaction-valid}
use toyblockchain.Chain.Growth.Live.{IsLive}
use toyblockchain.Chain.Storage.{Disk}
use toyblockchain.Cli.Types.{
  CliError, Reply, settle, answer, invalid_number, faucet_rejected, queued_grant,
}
use toyblockchain.Cli.Commands.{cmd_faucet, give, grant, parse_number}

module _ (p : Platform) where
  -- A transaction of the faucet is accepted where `Validate` accepts it, whatever the balances are.
  validate_transaction-faucet_iff :
      (l : Ledger) (tx : Transaction)
      → bytes_eq tx.sender faucet_account ≡ true
      → (validate_transaction p l tx ≡ ok tt) ↔ (validate p tx ≡ ok tt)
  unfolding validate_transaction
  validate_transaction-faucet_iff l tx e = (λ h. go (validate p tx) refl h, λ h. rw (h, e) refl)
    where
      go :
          (r : Result TransactionError (Unit {0}))
          → validate p tx ≡ r
          → validate_transaction p l tx ≡ ok tt
          → validate p tx ≡ ok tt
      go (ok u) f h = f
      go (err x) f h = ground arith

  -- Whom the faucet gives money, and how much.
  pub record IsGrant (recipient text : Bytes) (amount : ℤ) : Type 0 where
    pub number : parse_int text ≡ some amount
    pub positive : pos 1 ≤ℤ amount
    pub named : is_empty (trim_space recipient) ≡ false
    pub other : recipient ≢ faucet_account

  validate-grant_iff :
      (recipient : Bytes) (amount : ℤ)
      → (validate p (grant recipient amount) ≡ ok tt) ↔ (
          (pos 1 ≤ℤ amount)
          × (is_empty (trim_space recipient) ≡ false)
          × (recipient ≢ faucet_account))
  validate-grant_iff recipient amount =
      let iff = validate_iff p (grant recipient amount) in
      (
        λ h. let w = (iff.0 h).0 in (w.positive, w.has_recipient, λ e. w.distinct (sym e)),
        λ (positive, named, other). iff.1 (
          record {
            positive = positive;
            has_sender = unfold trim_space in refl;
            has_recipient = named;
            distinct = λ e. other (sym e);
          },
          inl (refl, refl, refl, refl),
        ),
      )

  granted : Chain → Disk → Bytes → ℤ → Reply
  granted c disk recipient amount =
      answer (record c { pending = c.pending ++ grant recipient amount ∷ [] }) disk
        (queued_grant recipient amount ∷ [])

  give-ok :
      (c : Chain) (disk : Disk) (recipient text : Bytes) (amount : ℤ)
      → IsLive p c
      → IsGrant recipient text amount
      → give p c disk recipient text ≡ ok (granted c disk recipient amount)
  unfolding give granted
  give-ok c disk recipient text amount live g =
      let valid =
        (validate_transaction-faucet_iff live.pooled (grant recipient amount)
            (unfold bytes_eq in refl)).1
          ((validate-grant_iff recipient amount).1 (g.positive, g.named, g.other)) in
      rw (g.number, add_transaction-run p c (grant recipient amount) live valid) refl

  give-IsGrant :
      (c : Chain) (disk : Disk) (recipient text : Bytes) (r : Reply)
      → IsLive p c
      → give p c disk recipient text ≡ ok r
      → (amount : ℤ) × IsGrant recipient text amount
  unfolding give
  give-IsGrant c disk recipient text r live e =
      let (amount, e0, r0) = >>=-eq-ok (parse_number text) _ e in
      let (longer, e1, r1) =
        >>=-eq-ok (wrap_err faucet_rejected (add_transaction p c (grant recipient amount))) _ r0 in
      let valid =
        add_transaction-valid p c longer (grant recipient amount) live
          (wrap_err-ok faucet_rejected _ e1) in
      let (positive, named, other) = (validate-grant_iff recipient amount).0 (
        (validate_transaction-faucet_iff live.pooled (grant recipient amount)
            (unfold bytes_eq in refl)).0
          valid) in
      (
        amount,
        record {
          number = or_fail-ok (parse_int text) invalid_number e0;
          positive = positive;
          named = named;
          other = other;
        },
      )

  -- On a chain in use, `faucet` succeeds exactly when the amount is the text of a positive `int64` and
  -- the recipient is neither blank nor the faucet; no balance limits it. The grant is then the last
  -- transaction of the pool, and nothing else has changed.
  pub cmd_faucet_iff :
      (c : Chain) (disk : Disk) (recipient text : Bytes)
      → IsLive p c
      → let r = cmd_faucet p c disk (recipient ∷ text ∷ []) in
        ((r.result ≡ ok tt) ↔ ((amount : ℤ) × IsGrant recipient text amount))
        × ((amount : ℤ)
            → IsGrant recipient text amount
            → (r.chain ≡ record c { pending = c.pending ++ grant recipient amount ∷ [] })
              × (r.disk ≡ disk))
  unfolding cmd_faucet granted
  cmd_faucet_iff c disk recipient text live = (
    (
      λ h. go (give p c disk recipient text) refl h,
      λ (amount, g). rw (give-ok c disk recipient text amount live g) refl,
    ),
    λ amount g. rw (give-ok c disk recipient text amount live g) (refl, refl),
  )
    where
      go :
          (x : Result CliError Reply)
          → give p c disk recipient text ≡ x
          → (settle c disk x).result ≡ ok tt
          → (amount : ℤ) × IsGrant recipient text amount
      go (err e) f h = cc h
      go (ok r) f h = give-IsGrant c disk recipient text r live f
