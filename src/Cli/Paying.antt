-- ===== src/Cli/Paying.antt =====
-- When `send` queues a transaction (cli/cli.go).
use toyblockchain.Prelude.{
  ◌+◌, ◌<◌, ◌^◌, false, ◌≡◌, ◌≢◌, refl, sym, ap, ◌∙◌, some, [], ◌∷◌, ◌++◌, ok, arith,
}
use toyblockchain.Prelude.Int.{ℤ, pos, ◌≤ℤ◌}
use toyblockchain.Prelude.Bytes.{
  Bytes, bytes_eq, hex_decode, hex_decode-hex_encode, parse_int, trim_space,
}
use toyblockchain.Prelude.Dict.{lookup}
use toyblockchain.Platform.{Platform, HasDigests, HasSignatures, ed25519_public}
use toyblockchain.Block.Types.{Transaction, faucet_account}
use toyblockchain.Block.Transaction.{is_empty, address_from_public_key, sign, validate}
use toyblockchain.Block.Transaction.Ownership.{bytes_eq_of_ne}
use toyblockchain.Block.Transaction.Signing.{address-ne-faucet, validate-sign}
use toyblockchain.Ledger.{
  Ledger, balance, last_nonce, next_nonce, validate_transaction, check_account,
}
use toyblockchain.Chain.Types.{Chain}
use toyblockchain.Chain.Methods.{chain_ledger}
use toyblockchain.Chain.Growth.Accepting.{add_transaction-run}
use toyblockchain.Chain.Growth.Live.{IsLive}
use toyblockchain.Chain.Storage.{Disk}
use toyblockchain.Cli.Types.{WalletStore, WalletJson, Cli, Environment, answer}
use toyblockchain.Cli.Wallets.{load_wallet_store, wallet_of_key}
use toyblockchain.Cli.Commands.{cmd_send, send, unsigned, queued_line}

module _ (p : Platform) where
  validate_transaction-signed :
      (l : Ledger) (tx : Transaction)
      → validate p tx ≡ ok tt
      → bytes_eq tx.sender faucet_account ≡ false
      → tx.nonce ≡ next_nonce l tx.sender
      → tx.amount ≤ℤ balance l tx.sender
      → validate_transaction p l tx ≡ ok tt
  unfolding validate_transaction check_account
  validate_transaction-signed l tx valid signed numbered funded =
      rw (valid, signed) (ground (arith, numbered, funded))

  module _ (d : HasDigests p) (g : HasSignatures p) where
    -- A wallet whose key is made of a seed can pay an amount to a recipient from a ledger.
    pub record CanPay (l : Ledger) (seed recipient : Bytes) (amount : ℤ) : Type 0 where
      pub positive : pos 1 ≤ℤ amount
      pub named : is_empty (trim_space recipient) ≡ false
      pub other : recipient ≢ address_from_public_key p (ed25519_public (p.ed25519_new_key seed))
      pub funds :
          amount ≤ℤ balance l (address_from_public_key p (ed25519_public (p.ed25519_new_key seed)))
      pub numbers :
          last_nonce l (address_from_public_key p (ed25519_public (p.ed25519_new_key seed))) + 1
          < 2 ^ 64

    -- The transaction that such a wallet signs is accepted.
    signed-accepted :
        (l : Ledger) (seed recipient : Bytes) (amount : ℤ)
        → let address = address_from_public_key p (ed25519_public (p.ed25519_new_key seed)) in
          CanPay l seed recipient amount
          → (t : Transaction) × (sign p
                (unsigned recipient amount (next_nonce l address))
                (p.ed25519_new_key seed)
              ≡ ok t)
            × (validate_transaction p l t ≡ ok tt)
            × (t.sender ≡ address)
            × (t.recipient ≡ recipient)
            × (t.amount ≡ amount)
            × (t.nonce ≡ last_nonce l address + 1)
    unfolding next_nonce
    signed-accepted l seed recipient amount can =
        let public = ed25519_public (p.ed25519_new_key seed) in
        let address = address_from_public_key p public in
        let small = can.numbers in
        let (t, signing, valid, from, to, much, number) =
          validate-sign p d g seed (unsigned recipient amount (next_nonce l address)) can.positive
            can.named can.other (omega arith) in
        let numbered : t.nonce ≡ next_nonce l t.sender = number ∙ sym (ap (next_nonce l) from) in
        let funded : t.amount ≤ℤ balance l t.sender = rw (much, from) can.funds in
        (
          t,
          signing,
          validate_transaction-signed l t valid
              (bytes_eq_of_ne p t.sender faucet_account
                (λ e. address-ne-faucet p d g public (sym from ∙ e)))
              numbered funded,
          from,
          to,
          much,
          omega (arith, number),
        )

    module _ (json : WalletJson) (cli : Cli) (env : Environment) where
      -- On a chain in use, `send` from a wallet that the store has, whose key Ed25519 has made, succeeds
      -- if the amount is the text of a positive `int64` that the balance after the pending pool covers,
      -- the recipient is neither blank nor the sender, and the nonces of the account are not used up. The
      -- pool has then one transaction more: from the wallet to the recipient, of that amount, with the
      -- nonce after the last one that the account has used.
      pub cmd_send-accepts :
          (c : Chain) (disk : Disk) (name recipient text seed : Bytes) (store : WalletStore)
          (amount : ℤ) (live : IsLive p c)
          → load_wallet_store json env.readable cli.wallet_file disk ≡ ok store
          → let wallet = wallet_of_key p json cli env (p.ed25519_new_key seed) in
            lookup name store ≡ some wallet
            → parse_int text ≡ some amount
            → CanPay live.pooled seed recipient amount
            → let r = cmd_send p json cli env c disk (name ∷ recipient ∷ text ∷ []) in
              (t : Transaction) × (r.result ≡ ok tt)
              × (r.chain ≡ record c { pending = c.pending ++ t ∷ [] })
              × (r.disk ≡ disk)
              × (t.sender ≡ wallet.address)
              × (t.recipient ≡ recipient)
              × (t.amount ≡ amount)
              × (t.nonce ≡ last_nonce live.pooled wallet.address + 1)
      unfolding cmd_send send chain_ledger
      cmd_send-accepts c disk name recipient text seed store amount live loaded found number can =
          let (t, signing, valid, from, to, much, nonce) =
            signed-accepted live.pooled seed recipient amount can in
          let key : hex_decode (wallet_of_key p json cli env (p.ed25519_new_key seed)).private_key
              ≡ some (p.ed25519_new_key seed) =
            hex_decode-hex_encode _ (g.key-IsBytes seed) in
          let longer : Chain = record c { pending = c.pending ++ t ∷ [] } in
          let run : send p json cli env c disk name recipient text
              ≡ ok (answer longer disk (queued_line t ∷ [])) =
            rw
              (
                number,
                loaded,
                found,
                key,
                live.valid.replayed,
                live.replayable,
                signing,
                add_transaction-run p c t live valid,
              )
              refl in
          (t, rw run refl, rw run refl, rw run refl, from, to, much, nonce)
